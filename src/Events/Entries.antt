-- ===== src/Events/Entries.antt =====
-- internal/ws/events.go and internal/ui/wsevents.go: the events, and a message put into a list.
use beeper_tui.Base.{
  Bool, ◌&&◌, String, ◌==◌, List, [], ◌∷◌, Option, none, some, if◌then◌else◌, has_prefix,
}
use beeper_tui.Api.{Message}

-- internal/ws/events.go: `Event`, by its type.
pub data EventType : Type 0 where
  ev_connecting ev_connected ev_disconnected : EventType
  message_upserted message_deleted chat_upserted chat_deleted : EventType

pub record Event : Type 0 where
  pub type : EventType
  pub chat_id : String
  pub ids : List String
  pub entries : List (Option Message)
  pub err : Option String

-- `eventChatID`.
unfoldable pub event_chat_id : Event → String
event_chat_id e = if e.chat_id == "" then elim e.ids [ [] ↦ "" | id ∷ _ ↦ id ] else e.chat_id

-- `upsertMessage`.
unfoldable pub upsert_message : List Message → Message → List Message
upsert_message [] msg = msg ∷ []
upsert_message (x ∷ xs) msg = if x.id == msg.id then msg ∷ xs else x ∷ upsert_message xs msg

-- An optimistic send with the text of the message.
abbrev pub is_placeholder : Message → Message → Bool
is_placeholder msg x = has_prefix "local:" x.id && x.text == msg.text

-- The loop of `upsertConversationMessage`: the first placeholder and the list with it replaced.
unfoldable pub replace_placeholder : Message → List Message → Option (String × List Message)
replace_placeholder msg [] = none
replace_placeholder msg (x ∷ xs) =
    let rest = replace_placeholder msg xs in
    if is_placeholder msg x
    then some (x.id, msg ∷ xs)
    else elim rest [ none ↦ none | some (id, xs') ↦ some (id, x ∷ xs') ]
