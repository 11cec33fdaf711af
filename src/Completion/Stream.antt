-- ===== src/Completion/Stream.antt =====
-- internal/llm/client.go: the reply that is streamed, from the lines of the body.
use beeper_tui.Base.{
  drop_runes, pos, negsuc, ℕ, zero, suc, Bool, true, false, not, String, ◌==◌, List, [], ◌∷◌, ◌++◌,
  Option, none, some, Result, ok, error, map, if◌then◌else◌, eqb, leb, has_prefix, trim_space,
  texts,
}
use Prim.Native.String.{◌++◌ as concat}
use beeper_tui.Completion.{
  Redactor, ToolCall, Message, Fragment, Delta, Chunk, Decoder, with_arguments, rehydrated,
}

-- What the loop keeps: the message so far, what was given to the handlers, the calls by their index, and
-- one more than the greatest index.
pub record Streaming : Type 0 where
  pub content : String
  pub hold : String
  pub deltas : List String
  pub thoughts : List String
  pub calls : List (ℕ × ToolCall)
  pub bound : ℕ

abbrev pub start : Streaming
start = record { content = ""; hold = ""; deltas = []; thoughts = []; calls = []; bound = 0 }

-- `&ToolCall{Type: "function"}`.
abbrev pub new_call : ToolCall
new_call = record { id = ""; type = "function"; function = record { name = ""; arguments = "" } }

-- What a fragment adds to its call.
abbrev pub extend : Fragment → ToolCall → ToolCall
extend f c = record {
  id = if f.id == "" then c.id else f.id;
  type = c.type;
  function = record {
    name = concat c.function.name f.name;
    arguments = concat c.function.arguments f.arguments;
  };
}

-- The call of an index, made where it is missing.
unfoldable pub at_call : ℕ → (ToolCall → ToolCall) → List (ℕ × ToolCall) → List (ℕ × ToolCall)
at_call i f [] = (i, f new_call) ∷ []
at_call i f ((j, c) ∷ cs) =
    let rest = at_call i f cs in if eqb j i then (j, f c) ∷ cs else (j, c) ∷ rest

abbrev greater : ℕ → ℕ → ℕ
greater i bound = if leb bound i then suc i else bound

-- A call below index 0 is kept by the source and never collected.
abbrev pub add_fragment : Fragment → Streaming → Streaming
add_fragment f st = elim f.index [
  | negsuc n ↦ st
  | pos i ↦ record st { calls = at_call i (extend f) st.calls; bound = greater i st.bound }
]

unfoldable pub add_fragments : List Fragment → Streaming → Streaming
add_fragments [] st = st
add_fragments (f ∷ fs) st = add_fragments fs (add_fragment f st)

abbrev emitted : Redactor → String → List String
emitted r s = if s == "" then [] else r.rehydrate s ∷ []

-- `emitDelta`.
unfoldable pub emit_delta : Option Redactor → Bool → String → Streaming → Streaming
emit_delta redactor false s st = st
emit_delta none true s st = record st { deltas = st.deltas ++ s ∷ [] }
emit_delta (some r) true s st =
    let (out, hold) = r.hold_back (concat st.hold s) in
    record st { deltas = st.deltas ++ emitted r out; hold = hold }

abbrev pub add_content : Option Redactor → Bool → String → Streaming → Streaming
add_content redactor handles s st =
    if s == ""
    then st
    else emit_delta redactor handles s (record st { content = concat st.content s })

abbrev pub add_thought : Bool → String → Streaming → Streaming
add_thought handles s st =
    if s == "" then st else if handles then record st { thoughts = st.thoughts ++ s ∷ [] } else st

-- What one delta does, with whether each handler is set.
unfoldable pub on_delta : Option Redactor → Bool → Bool → Delta → Streaming → Streaming
on_delta redactor shows thinks d st = add_fragments d.fragments (
    add_thought thinks (concat d.reasoning d.reasoning_content)
      (add_content redactor shows d.content st))

-- What a line of the body is.
pub data Line : Type 0 where
  skipped : Line
  done : Line
  failed : String → Line
  delta : Delta → Line

abbrev of_chunk : Option Chunk → Line
of_chunk none = skipped
of_chunk (some ck) = elim ck.err [
  | some e ↦ failed (texts ("chat: " ∷ e ∷ []))
  | none ↦ elim ck.choices [ [] ↦ skipped | d ∷ ds ↦ delta d ]
]

module _ ⦃decoder : Decoder⦄ where
  unfoldable pub line_of : String → Line
  line_of raw =
      let line = trim_space raw in
      let body = trim_space (drop_runes 5 line) in
      if not (has_prefix "data:" line)
      then skipped
      else if body == "[DONE]"
      then done
      else of_chunk (decoder.decode_chunk body)

  -- The loop over the lines of the body.
  unfoldable pub stream_lines :
      Option Redactor → Bool → Bool → List String → Streaming → Result Streaming
  stream_lines redactor shows thinks [] st = ok st
  stream_lines redactor shows thinks (raw ∷ raws) st = elim (line_of raw) [
    | skipped ↦ stream_lines redactor shows thinks raws st
    | done ↦ ok st
    | failed e ↦ error e
    | delta d ↦ stream_lines redactor shows thinks raws (on_delta redactor shows thinks d st)
  ]

-- `calls[i]`.
unfoldable pub call_of : ℕ → List (ℕ × ToolCall) → Option ToolCall
call_of i [] = none
call_of i ((j, c) ∷ cs) = let rest = call_of i cs in if eqb j i then some c else rest

-- The calls from an index on, in the order of their indices.
unfoldable pub collect : ℕ → ℕ → List (ℕ × ToolCall) → List ToolCall
collect i zero cs = []
collect i (suc n) cs =
    let rest = collect (suc i) n cs in elim (call_of i cs) [ none ↦ rest | some c ↦ c ∷ rest ]

abbrev flushed : Option Redactor → Bool → Streaming → Streaming
flushed none shows st = st
flushed (some r) shows st =
    if shows then record st { deltas = st.deltas ++ emitted r st.hold } else st

-- The end of `Stream`: the message, and all that the handler of the answer was given.
unfoldable pub finish : Option Redactor → Bool → Streaming → Message × List String
finish redactor shows st = (
  record {
    role = "assistant";
    content = rehydrated redactor st.content;
    tool_calls = map (with_arguments (rehydrated redactor)) (collect 0 st.bound st.calls);
    tool_call_id = "";
  },
  (flushed redactor shows st).deltas,
)

-- `Stream`, of the lines of the body and the error of reading them.
unfoldable pub stream :
    ⦃decoder : Decoder⦄
    → Option Redactor
    → Bool
    → Bool
    → List String
    → Option String
    → Result (Message × List String)
stream redactor shows thinks lines broken = elim (stream_lines redactor shows thinks lines start) [
  | error e ↦ error e
  | ok st ↦ elim broken [ some e ↦ error e | none ↦ ok (finish redactor shows st) ]
]
