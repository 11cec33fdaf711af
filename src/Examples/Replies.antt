-- ===== src/Examples/Replies.antt =====
-- A reply of the model server on concrete lines.
use beeper_tui.Base.{has_prefix, trim_space, ◌≡◌, refl, true, false, pos, [], ◌∷◌, none, some}
use beeper_tui.Completion.{Decoder, Delta}
use beeper_tui.Completion.Stream.{Streaming, start, on_delta, stream_lines, call_of, line_of}
use beeper_tui.Completion.Lookup.{arguments_of, parts_for}
use beeper_tui.Completion.Calls.{fragments_in, stream_lines-arguments}

abbrev piece : Delta
piece = record {
  content = "";
  reasoning = "";
  reasoning_content = "";
  fragments = record { index = pos 0; id = "c1"; name = "list_chats"; arguments = "{}" } ∷ [];
}

-- A decoder for which every text is that piece.
instance abbrev one_piece : Decoder
one_piece = record { decode_chunk = λ _. some (record { choices = piece ∷ []; err = none }) }

abbrev read : Streaming
read = on_delta none true false piece start

stream_lines-arguments_example :
    arguments_of (call_of 0 read.calls)
    ≡ parts_for 0 (fragments_in none true false ("data: x" ∷ "data: [DONE]" ∷ []))
unfolding stream_lines line_of has_prefix trim_space
stream_lines-arguments_example =
    stream_lines-arguments none true false 0 ("data: x" ∷ "data: [DONE]" ∷ []) read refl
