-- ===== src/Events.antt =====
-- internal/ui/wsevents.go: folding live events into the state. An entry of an event is the message
-- that it decodes to, none where decoding fails.
mod Entries
pub mod Selection
pub mod Incoming
pub mod Upsert
pub mod Connection
pub mod Deleted
unfoldable pub use Entries.*
use beeper_tui.Base.{
  ℕ, suc, Bool, true, false, not, ◌&&◌, ◌||◌, String, ◌==◌, List, [], ◌∷◌, ◌++◌, Option, none, some,
  if◌then◌else◌, ltb, leb, keep, modify, lookup, insert, delete, has_prefix,
}
use beeper_tui.Platform.{Platform}
use beeper_tui.Api.{Chat, Message}
use beeper_tui.Model.{
  Model, connecting, connected, disconnected, Cmd, load_chats, load_messages, refresh_messages,
  refresh_chat, mark_read, retry_ws, wait_ws_event, is_list, is_conversation, is_insert,
}
use beeper_tui.Sorting.{sort_chats, reselect_by_id}
use beeper_tui.Cache.{selected_id}
use beeper_tui.React.{member}
use beeper_tui.Nav.Window.{max_msg_offset, clamp_window}
use beeper_tui.Nav.Cursor.{last_message}
use beeper_tui.Nav.Chats.{chat_index_by_id, back_to_list, select_first_visible_chat}

-- `waitForWSEvent`.
abbrev pub wait_for_ws_event : Model → List Cmd
wait_for_ws_event m = if m.has_events then wait_ws_event ∷ [] else []

-- `retryConnection`.
unfoldable pub retry_connection : Model → Model × List Cmd
retry_connection m = elim m.err [
  | some _ ↦ (record m { err = none; loading_chats = true }, retry_ws ∷ load_chats ∷ [])
  | none ↦ (m, retry_ws ∷ [])
]

-- `reconcileAfterReconnect`.
unfoldable pub reconcile_after_reconnect : Model → Model × List Cmd
reconcile_after_reconnect m = (
  record m { preview_cache = []; preview_err = [] },
  load_chats ∷ (if m.current_chat_id == "" then [] else load_messages m.current_chat_id ∷ []),
)

abbrev append_or_replace : Message → Bool → Model → Model
append_or_replace msg at_bottom m =
    let m' = record m { messages = upsert_message m.messages msg } in
    if at_bottom
    then record m' { msg_selected = last_message m'; msg_offset = max_msg_offset m' }
    else m'

-- `upsertConversationMessage`.
unfoldable pub upsert_conversation_message : Message → Bool → Model → Model
upsert_conversation_message msg at_bottom m =
    elim (if msg.is_from_me then replace_placeholder msg m.messages else none) [
      | none ↦ append_or_replace msg at_bottom m
      | some (id, msgs) ↦ record m { messages = msgs; failed_sends = delete id m.failed_sends }
    ]

-- What a message does to its chat in the list.
unfoldable pub bump_chat : Message → Bool → Chat → Chat
bump_chat msg read c = record c {
  preview = msg.text;
  unread = if msg.is_from_me || read then c.unread else suc c.unread;
  last_active =
      if not c.muted && not c.low_priority && ltb c.last_active msg.timestamp
      then msg.timestamp
      else c.last_active;
}

-- `m.previewCache[chatID] = upsertMessage(cached, msg)`, where the chat is cached.
abbrev pub upsert_preview : Message → List (String × List Message) → List (String × List Message)
upsert_preview msg cache = elim (lookup msg.chat_id cache) [
  | none ↦ cache
  | some cached ↦ insert msg.chat_id (upsert_message cached msg) cache
]

-- The conversation of the message is on the screen.
abbrev pub is_open : String → Model → Bool
is_open id m = m.current_chat_id == id && (is_conversation m.mode || is_insert m.mode)

abbrev pub is_at_bottom : Model → Bool
is_at_bottom m = leb (max_msg_offset m) m.msg_offset

-- `applyIncomingMessage` for the chat at `idx`, before the list is sorted again.
unfoldable pub fold_message : ℕ → Message → Model → Model
fold_message idx msg m =
    let read = is_open msg.chat_id m && is_at_bottom m in
    let msg' = record msg { is_unread = if read then false else msg.is_unread } in
    let m' = record m { chats = modify m.chats idx (bump_chat msg read) } in
    let m'' =
      if is_open msg.chat_id m then upsert_conversation_message msg' (is_at_bottom m) m' else m' in
    record m'' { preview_cache = upsert_preview msg' m''.preview_cache }

abbrev pub without : List String → List Message → List Message
without ids msgs = keep (λ msg. not (member msg.id ids)) msgs

abbrev delete_all {ℓ} : {V : Type ℓ} → List String → List (String × V) → List (String × V)
delete_all [] m = m
delete_all (id ∷ ids) m = delete_all ids (delete id m)

-- The refetched chat has no preview, so a known one is kept.
abbrev pub merge_chat : Chat → Chat → Chat
merge_chat fresh old = record fresh {
  preview = if fresh.preview == "" then old.preview else fresh.preview;
}

module _ ⦃platform : Platform⦄ where
  -- `resortKeepingSelection`.
  unfoldable pub resort_keeping_selection : Model → Model
  resort_keeping_selection m =
      let id = selected_id m in
      let chats = sort_chats m.chats in
      clamp_window (record m {
        chats = chats;
        selected = if id == "" then m.selected else reselect_by_id chats id;
      })

  -- `applyIncomingMessage`.
  unfoldable pub apply_incoming_message : Message → Model → Model × List Cmd
  apply_incoming_message msg m = elim (chat_index_by_id m.chats msg.chat_id) [
    | none ↦ (m, load_chats ∷ [])
    | some idx ↦ (
      resort_keeping_selection (fold_message idx msg m),
      if not msg.is_from_me && is_open msg.chat_id m && is_at_bottom m
          then mark_read msg.chat_id ∷ []
          else [],
    )
  ]

  -- One round of the loop of `applyMessageUpserted`.
  unfoldable pub apply_entry : String → Message → Model → Model × List Cmd
  apply_entry chat_id raw m =
      let msg = record raw { chat_id = if raw.chat_id == "" then chat_id else raw.chat_id } in
      if msg.is_reaction
      then (
        m,
        if msg.chat_id == m.current_chat_id && not (is_list m.mode)
            then refresh_messages msg.chat_id ∷ []
            else [],
      )
      else apply_incoming_message msg m

  -- `applyMessageUpserted`.
  unfoldable pub apply_entries : String → List (Option Message) → Model → Model × List Cmd
  apply_entries chat_id [] m = (m, [])
  apply_entries chat_id (none ∷ es) m = apply_entries chat_id es m
  apply_entries chat_id (some raw ∷ es) m =
      let (m', cmds) = apply_entry chat_id raw m in
      let (m'', cmds') = apply_entries chat_id es m' in (m'', cmds ++ cmds')

  -- `applyMessageDeleted`.
  unfoldable pub apply_message_deleted : Event → Model → Model
  apply_message_deleted e m =
      let id = event_chat_id e in
      let m' =
        if m.current_chat_id == id
        then clamp_window (record m { messages = without e.ids m.messages })
        else m in
      record m' { preview_cache = delete id m'.preview_cache }

  -- `applyChatDeleted`.
  unfoldable pub apply_chat_deleted : Event → Model → Model
  apply_chat_deleted e m =
      let deleted = if e.chat_id == "" then e.ids else e.chat_id ∷ e.ids in
      let m' = record m {
        chats = keep (λ (c : Chat). not (member c.id deleted)) m.chats;
        preview_cache = delete_all deleted m.preview_cache;
        preview_err = delete_all deleted m.preview_err;
      } in
      let m'' =
        if member m.current_chat_id deleted && (is_conversation m.mode || is_insert m.mode)
        then record (back_to_list m') {
          current_chat_id = "";
          messages = [];
          msg_offset = 0;
          loading_msgs = false;
          input = "";
        }
        else m' in
      select_first_visible_chat (record m'' { selected = reselect_by_id m''.chats (selected_id m) })

  -- `applyChatRefreshed`.
  unfoldable pub apply_chat_refreshed : Chat → Model → Model
  apply_chat_refreshed c m = resort_keeping_selection (record m {
    chats = elim (chat_index_by_id m.chats c.id) [
      | none ↦ m.chats ++ c ∷ []
      | some i ↦ modify m.chats i (merge_chat c)
    ];
  })

  abbrev pub on_connected : Model → Model × List Cmd
  on_connected m =
      let m' = record m { conn = connected; conn_err = none } in
      if m.ever_connected
      then reconcile_after_reconnect m'
      else (record m' { ever_connected = true }, [])

  abbrev pub dispatch : EventType → Event → Model → Model × List Cmd
  dispatch ev_connecting e m = (record m { conn = connecting }, [])
  dispatch ev_connected e m = on_connected m
  dispatch ev_disconnected e m = (record m { conn = disconnected; conn_err = e.err }, [])
  dispatch message_upserted e m = apply_entries e.chat_id e.entries m
  dispatch message_deleted e m = (apply_message_deleted e m, [])
  dispatch chat_upserted e m =
      (m, if event_chat_id e == "" then [] else refresh_chat (event_chat_id e) ∷ [])
  dispatch chat_deleted e m = (apply_chat_deleted e m, [])

  -- `applyWSEvent`.
  unfoldable pub apply_ws_event : Event → Model → Model × List Cmd
  apply_ws_event e m = dispatch e.type e m
