-- ===== src/Model.antt =====
-- internal/ui/model.go: the state of the interface, and the commands that an update returns.
-- `tea.Cmd` is a list of commands: nil is the empty list and `tea.Batch` is concatenation. The
-- handles (API client, card store, merge policy, vault) are not state of this package: of the event
-- client and the model client the record keeps what the code reads. An `error` is its text, nil is
-- `none`; an index that the code sets to -1 for "none" is an `Option`, but `msg_selected` is an
-- integer as in the source, since it is moved by whole pages before it is clamped.
use beeper_tui.Base.{ℕ, ℤ, pos, Bool, true, false, String, List, [], Option, none, some}
use beeper_tui.Api.{Chat, Message, Contact, MessageSearchResult}
use beeper_tui.Tab.{Tab, inbox}

pub data Mode : Type 0 where
  list conversation insert search react chat chat_insert : Mode

abbrev pub is_list : Mode → Bool
is_list list = true
is_list _ = false

abbrev pub is_conversation : Mode → Bool
is_conversation conversation = true
is_conversation _ = false

abbrev pub is_insert : Mode → Bool
is_insert insert = true
is_insert _ = false

abbrev pub is_search : Mode → Bool
is_search search = true
is_search _ = false

abbrev pub is_chat : Mode → Bool
is_chat chat = true
is_chat _ = false

pub data ConnState : Type 0 where
  idle connecting connected disconnected : ConnState

pub record FailedSend : Type 0 where
  pub reason : String
  pub text : String
  pub atts : List String

-- internal/ui/media.go: one attachment's inline preview.
pub record MediaPreview : Type 0 where
  pub lines : List String
  pub err : Option String

-- What the interface reads of the model client: `Model()` and `BaseURL()`.
pub record Llm : Type 0 where
  pub model : String
  pub base_url : String

-- internal/ui/chat.go: the transcript.
pub data ChatRole : Type 0 where
  you assistant : ChatRole

pub record ToolStep : Type 0 where
  pub name : String
  pub args : String
  pub result : String
  pub running : Bool

pub record ChatTurn : Type 0 where
  pub role : ChatRole
  pub text : String
  pub steps : List ToolStep
  pub streaming : Bool
  pub err_text : String

pub record ChatLink : Type 0 where
  pub name : String
  pub chat_id : String

pub record Model : Type 0 where
  pub has_events : Bool
  pub mode : Mode
  pub conn : ConnState
  pub conn_err : Option String
  pub ever_connected : Bool
  pub cache_path : String
  pub cache_saved_at : ℕ
  pub chats : List Chat
  pub tab : Tab
  pub selected : ℕ
  pub offset : ℕ
  pub list_pos : Option ℕ
  pub preview_on : Bool
  pub preview_cache : List (String × List Message)
  pub preview_err : List (String × String)
  pub current_chat_id : String
  pub messages : List Message
  pub msg_offset : ℕ
  pub msg_selected : ℤ
  pub react_input : String
  pub react_cand_idx : ℕ
  pub react_err : Option String
  pub self_users : List (String × String)
  pub media_previews : List (String × MediaPreview)
  pub media_err : Option String
  pub input : String
  pub compose_atts : List String
  pub compose_err : Option String
  pub failed_sends : List (String × FailedSend)
  pub local_seq : ℕ
  pub search_query : String
  pub search_results : List MessageSearchResult
  pub search_selected : ℕ
  pub search_offset : ℕ
  pub search_loading : Bool
  pub search_err : Option String
  pub llm : Option Llm
  pub contacts : List Contact
  pub chat_model : String
  pub chat_detecting : Bool
  pub chat_checked : Bool
  pub chat_err : Option String
  pub chat_turns : List ChatTurn
  pub chat_input : String
  pub chat_session : Bool
  pub chat_offset : ℕ
  pub chat_follow : Bool
  pub chat_tokens : ℕ
  pub chat_started : ℕ
  pub chat_links : List ChatLink
  pub chat_link_sel : Option ℕ
  pub chat_reasoning : ℕ
  pub return_to_chat : Bool
  pub width : ℕ
  pub height : ℕ
  pub loading_chats : Bool
  pub loading_msgs : Bool
  pub err : Option String
  pub conv_err : Option String
  pub archive_err : Option String
  pub archiving_chat_id : String
  pub pending_g : Bool

-- `New`: the zero value of each field but those that the literal sets.
unfoldable pub new : Bool → Model
new has_events = record {
  has_events = has_events;
  mode = list;
  conn = idle;
  conn_err = none;
  ever_connected = false;
  cache_path = "";
  cache_saved_at = 0;
  chats = [];
  tab = inbox;
  selected = 0;
  offset = 0;
  list_pos = some 0;
  preview_on = false;
  preview_cache = [];
  preview_err = [];
  current_chat_id = "";
  messages = [];
  msg_offset = 0;
  msg_selected = pos 0;
  react_input = "";
  react_cand_idx = 0;
  react_err = none;
  self_users = [];
  media_previews = [];
  media_err = none;
  input = "";
  compose_atts = [];
  compose_err = none;
  failed_sends = [];
  local_seq = 0;
  search_query = "";
  search_results = [];
  search_selected = 0;
  search_offset = 0;
  search_loading = false;
  search_err = none;
  llm = none;
  contacts = [];
  chat_model = "";
  chat_detecting = false;
  chat_checked = false;
  chat_err = none;
  chat_turns = [];
  chat_input = "";
  chat_session = false;
  chat_offset = 0;
  chat_follow = true;
  chat_tokens = 0;
  chat_started = 0;
  chat_links = [];
  chat_link_sel = none;
  chat_reasoning = 0;
  return_to_chat = false;
  width = 0;
  height = 0;
  loading_chats = true;
  loading_msgs = false;
  err = none;
  conv_err = none;
  archive_err = none;
  archiving_chat_id = "";
  pending_g = false;
}

-- The asynchronous work that an update asks for.
pub data Cmd : Type 0 where
  quit poll_tick load_chats refresh_chats load_contacts load_self_users : Cmd
  wait_ws_event retry_ws paste_clipboard_image detect_model wait_chat_event : Cmd
  load_messages refresh_messages refresh_chat mark_read search_messages load_preview : String → Cmd
  send_message : String → String → String → Cmd
  send_attachments : String → String → String → List String → Cmd
  archive_chat : String → Bool → Cmd
  react_to : String → String → String → Bool → Cmd
  load_media : String → String → ℕ → Cmd
  open_asset : String → Cmd
  save_cache : String → String → List Chat → Cmd
  run_chat_session : List (String × String) → Cmd
