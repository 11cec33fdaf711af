-- ===== src/Nav/Compose.antt =====
-- internal/ui/nav.go: writing a message, pasting, and sending.
pub mod Retry
use beeper_tui.Base.{
  ℕ, suc, true, false, ◌&&◌, String, ◌==◌, List, [], ◌∷◌, ◌++◌, map, none, some, if◌then◌else◌,
  length, ltb, eqb, take, ◌-◌, drop_last_rune,
}
use Prim.Native.String.{◌++◌ as concat}
use beeper_tui.Platform.{Platform}
use beeper_tui.Api.{Attachment, Message}
use beeper_tui.Model.{
  Model, Mode, conversation, Cmd, quit, paste_clipboard_image, send_message, send_attachments,
}
use beeper_tui.Nav.Cursor.{jump_bottom}
use beeper_tui.Nav.Search.{search_after_query_change}
use beeper_tui.Media.{pasted_file_path}

module _ ⦃platform : Platform⦄ where
  -- The attachment row of an optimistic message.
  abbrev pub pending_attachment : String → Attachment
  pending_attachment path = record {
    type = "unknown";
    id = "";
    src_url = "";
    file_name = platform.path_base path;
    file_size = 0;
    mime_type = "";
    width = 0;
    height = 0;
    is_voice_note = false;
    is_gif = false;
    is_sticker = false;
    transcription = "";
  }

  -- `fmt.Sprintf("local:%d", seq)`.
  unfoldable pub local_id : ℕ → String
  local_id seq = concat "local:" (platform.decimal seq)

  unfoldable pub optimistic : ℕ → Model → Message
  optimistic now m = record {
    id = local_id (suc m.local_seq);
    chat_id = m.current_chat_id;
    sender_name = "You";
    text = m.input;
    timestamp = now;
    is_from_me = true;
    is_unread = false;
    is_reaction = false;
    reactions = [];
    attachments = map pending_attachment m.compose_atts;
  }

  -- The state of `sendInput` before it jumps to the bottom.
  abbrev pub sent : ℕ → Model → Model
  sent now m = record m {
    local_seq = suc m.local_seq;
    messages = m.messages ++ optimistic now m ∷ [];
    input = "";
    compose_atts = [];
    compose_err = none;
    mode = conversation;
  }

  -- `sendInput`, at the time `now`.
  unfoldable pub send_input : ℕ → Model → Model × List Cmd
  send_input now m =
      let id = local_id (suc m.local_seq) in
      if m.input == "" && eqb (length m.compose_atts) 0
      then (m, [])
      else if ltb 0 (length m.compose_atts)
      then (
        jump_bottom (sent now m),
        send_attachments m.current_chat_id id m.input m.compose_atts ∷ [],
      )
      else (jump_bottom (sent now m), send_message m.current_chat_id id m.input ∷ [])

  -- The backspace key: a rune of the text, or else the last attachment.
  abbrev erase_one : Model → Model
  erase_one m =
      if m.input == ""
      then record m { compose_atts = take (length m.compose_atts - 1) m.compose_atts }
      else record m { input = drop_last_rune m.input }

  -- `handleInsertKey`.
  unfoldable pub handle_insert_key : ℕ → String → String → Model → Model × List Cmd
  handle_insert_key now key text m =
      if key == "ctrl+c"
      then (m, quit ∷ [])
      else if key == "esc"
      then (record m { input = ""; compose_atts = []; compose_err = none; mode = conversation }, [])
      else if key == "enter"
      then send_input now m
      else if key == "ctrl+v"
      then (m, paste_clipboard_image ∷ [])
      else if key == "backspace"
      then (erase_one m, [])
      else (record m { input = concat m.input text }, [])

  abbrev paste_in : Mode → String → Model → Model × List Cmd
  paste_in Mode.insert content m = elim (pasted_file_path content) [
    | some path ↦ (record m { compose_atts = m.compose_atts ++ path ∷ []; compose_err = none }, [])
    | none ↦ (record m { input = concat m.input content }, [])
  ]
  paste_in Mode.search content m =
      search_after_query_change (record m { search_query = concat m.search_query content })
  paste_in Mode.react content m = (record m { react_input = concat m.react_input content }, [])
  paste_in Mode.list content m = (m, [])
  paste_in Mode.conversation content m = (m, [])
  paste_in Mode.chat content m = (m, [])
  paste_in Mode.chat_insert content m = (m, [])

  -- `handlePaste`.
  unfoldable pub handle_paste : String → Model → Model × List Cmd
  handle_paste content m = paste_in m.mode content m
