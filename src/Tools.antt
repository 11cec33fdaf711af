-- ===== src/Tools.antt =====
-- internal/ui/chattools.go: the tools of the assistant. What they call of the API and of the libraries
-- is the interface `ToolsApi`; a step keeps its texts.
pub mod Resolve
pub mod Searching
pub mod Listing
pub mod Reading
pub mod Cards
pub mod Exec
use beeper_tui.Base.{ℤ, ℕ, Bool, String, List, Option, Result}
use beeper_tui.Api.{Chat, Contact, Message, MessageSearchResult}

-- `SearchQuery`, 0 for the zero time.
pub record SearchQuery : Type 0 where
  pub query : String
  pub chat_id : String
  pub sender : String
  pub after : ℕ
  pub before : ℕ
  pub limit : ℤ

-- The arguments that some tool decodes, zero values where the JSON has none or is bad.
pub record ToolArgs : Type 0 where
  pub filter : String
  pub limit : ℤ
  pub chat : String
  pub query : String
  pub sender : String
  pub after : String
  pub before : String
  pub name : String
  pub at : String
  pub dismiss_on_message : Bool

pub record ToolsApi : Type 0 where
  pub list_chats : Result (List Chat)
  pub search_chats : String → Result (List Chat)
  pub list_messages : String → Result (List Message)
  pub list_contacts : Result (List Contact)
  pub search_contacts : String → Result (List Contact)
  pub search_messages_filtered : SearchQuery → Result (List MessageSearchResult)
  pub set_reminder : String → ℕ → Bool → Option String
  -- `json.Unmarshal` of the arguments.
  pub decode_args : String → ToolArgs
  -- `sort.Slice` by the time, the newest first; its order of equals is not stated.
  pub recent_first : List Chat → List Chat
  pub newest_first : List MessageSearchResult → List MessageSearchResult
  -- `ts.Local().Format("2006-01-02 15:04")`, the short form of a reminder, and `ts.String()`.
  pub time_text : ℕ → String
  pub short_time_text : ℕ → String
  pub full_time_text : ℕ → String
  -- `time.ParseInLocation` of a date, `AddDate(0, 0, 1)`, and the layouts of a reminder.
  pub parse_date : String → Option ℕ
  pub next_day : ℕ → ℕ
  pub parse_layout : String → String → Option ℕ
