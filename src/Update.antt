-- ===== src/Update.antt =====
-- internal/ui/update.go: one message of the event loop. The time and the scan for links are
-- arguments.
pub mod Resend
pub mod Previews
pub mod Refresh
use beeper_tui.Base.{
  ℕ, pos, Bool, true, false, not, ◌&&◌, String, ◌==◌, List, [], ◌∷◌, ◌++◌, Option, none, some,
  if◌then◌else◌, insert, get_or,
}
use beeper_tui.Platform.{Platform}
use beeper_tui.Api.{Chat, Contact, Message, MessageSearchResult}
use beeper_tui.Model.{
  Model, Mode, MediaPreview, ChatLink, Cmd, poll_tick, load_chats, load_contacts, load_self_users,
  load_messages, refresh_messages, is_search,
}
use beeper_tui.Preview.{PreviewLoaded, preview_load, apply_preview_loaded}
use beeper_tui.Media.{load_previews}
use beeper_tui.Messages.{SendError, send_err_reason}
use beeper_tui.Contacts.{resolve_chat_titles, apply_contacts_loaded}
use beeper_tui.Sorting.{sort_chats, reselect_by_id, first_unread_index}
use beeper_tui.Cache.{selected_id, maybe_save_cache}
use beeper_tui.React.{handle_react_key}
use beeper_tui.Events.{Event, wait_for_ws_event, apply_ws_event, apply_chat_refreshed}
use beeper_tui.Poll.{apply_poll_tick, apply_messages_refreshed}
use beeper_tui.Nav.Window.{max_msg_offset, clamp_window}
use beeper_tui.Nav.Cursor.{last_message}
use beeper_tui.Nav.Chats.{apply_archive}
use beeper_tui.Nav.Search.{handle_search_key}
use beeper_tui.Nav.Compose.{handle_insert_key, handle_paste}
use beeper_tui.Nav.Keys.{handle_key}
use beeper_tui.Assistant.Turns.{ChatEvent, apply_chat_event}
use beeper_tui.Assistant.Keys.{handle_chat_key, handle_chat_insert_key}

-- The messages that `Update` switches on.
pub data Msg : Type 0 where
  chats_loaded : List Chat → Msg
  preview_loaded : PreviewLoaded → Msg
  ws_event : Event → Msg
  contacts_loaded : List Contact → Msg
  chat_refreshed : Chat → Msg
  poll_ticked : Msg
  messages_refreshed messages_loaded : String → List Message → Msg
  search_loaded : String → List MessageSearchResult → Msg
  self_users_loaded : List (String × String) → Msg
  media_preview : String → MediaPreview → Msg
  open_result : Option String → Msg
  clipboard_image clipboard_error : String → Msg
  paste : String → Msg
  react_result : String → Option String → Msg
  send_result : String → String → List String → Option SendError → Msg
  archive_result : String → Bool → Option String → Msg
  load_error : String → String → String → Msg
  window_size : ℕ → ℕ → Msg
  chat_event : ChatEvent → Msg
  chat_model : String → Option String → Msg
  key_press : String → String → Msg

-- `m.loadPreviewsCmd()` beside the commands before and after it.
abbrev with_previews : List Cmd → Model → Model × List Cmd
with_previews cmds m = let (m', loads) = load_previews m in (m', cmds ++ loads)

module _ ⦃platform : Platform⦄ where
  -- `chatsLoadedMsg`: the selection follows its chat through the sort.
  unfoldable pub on_chats_loaded : ℕ → List Chat → Model → Model × List Cmd
  on_chats_loaded now fresh m =
      let id = selected_id m in
      let chats = sort_chats (resolve_chat_titles m.contacts fresh) in
      let m' = clamp_window (record m {
        chats = chats;
        selected = if id == "" then m.selected else reselect_by_id chats id;
        loading_chats = false;
      }) in
      let (m'', save) = maybe_save_cache now m' in (m'', preview_load m'' ++ save)

  -- `messagesLoadedMsg` of the open conversation: at the first unread message, or at the bottom.
  abbrev land_on : Option ℕ → Model → Model
  land_on (some u) m = clamp_window (record m { msg_offset = u; msg_selected = pos u })
  land_on none m = record m { msg_selected = last_message m; msg_offset = max_msg_offset m }

  unfoldable pub on_messages_loaded : String → List Message → Model → Model × List Cmd
  on_messages_loaded id msgs m = with_previews [] (
      if id == m.current_chat_id
      then land_on (first_unread_index msgs) (record m { messages = msgs; loading_msgs = false })
      else m)

  unfoldable pub on_search_loaded : String → List MessageSearchResult → Model → Model
  on_search_loaded query results m = clamp_window (
      if is_search m.mode && query == m.search_query
      then record m {
        search_results = results;
        search_selected = 0;
        search_offset = 0;
        search_loading = false;
        search_err = none;
      }
      else m)

  -- `sendResultMsg`: a failure is recorded with its draft, and the conversation is fetched again.
  unfoldable pub on_send_result :
      String → String → List String → Option SendError → Model → Model × List Cmd
  on_send_result local_id text atts none m = (m, [])
  on_send_result local_id text atts (some err) m = (
    record m {
      failed_sends =
          insert local_id (record { reason = send_err_reason err; text = text; atts = atts })
            m.failed_sends;
    },
    if m.current_chat_id == "" then [] else refresh_messages m.current_chat_id ∷ [],
  )

  unfoldable pub on_archive_result : String → Bool → Option String → Model → Model × List Cmd
  on_archive_result id archived err m =
      let m' = record m { archiving_chat_id = "" } in
      let applied = apply_archive id archived (record m' { archive_err = none }) in
      if id == m.archiving_chat_id
      then elim err [
        | some e ↦ (record m' { archive_err = some e }, [])
        | none ↦ (applied, preview_load applied)
      ]
      else (m, [])

  -- `errMsg`: of a search, of a conversation, or of the chat list.
  unfoldable pub on_load_error : String → String → String → Model → Model
  on_load_error chat_id query err m =
      if not (query == "")
      then (if is_search m.mode && query == m.search_query
          then record m { search_err = some err; search_loading = false }
          else m)
      else if not (chat_id == "")
      then (if chat_id == m.current_chat_id
          then record m { conv_err = some err; loading_msgs = false }
          else m)
      else elim m.chats [
        | _ ∷ _ ↦ record m { loading_chats = false }
        | [] ↦ record m { err = some err; loading_chats = false; loading_msgs = false }
      ]

  unfoldable pub on_chat_model : String → Option String → Model → Model
  on_chat_model id err m =
      let m' = record m { chat_detecting = false; chat_checked = true } in
      elim err [
        | some e ↦ record m' { chat_err = some e }
        | none ↦ record m' { chat_err = none; chat_model = id }
      ]

  on_react_result : String → Option String → Model → Model × List Cmd
  on_react_result id none m = (m, [])
  on_react_result id (some e) m = (
    record m { react_err = some e },
    if id == m.current_chat_id then load_messages id ∷ [] else [],
  )

  -- The key goes to the handler of the mode.
  abbrev key_in : Mode → ℕ → String → String → Model → Model × List Cmd
  key_in Mode.insert now key text m = handle_insert_key now key text m
  key_in Mode.search now key text m = handle_search_key key text m
  key_in Mode.react now key text m = handle_react_key key text m
  key_in Mode.chat_insert now key text m = handle_chat_insert_key now key text m
  key_in Mode.chat now key text m = handle_chat_key key m
  key_in Mode.list now key text m = handle_key key m
  key_in Mode.conversation now key text m = handle_key key m

  -- `Update`.
  unfoldable pub update : ℕ → Msg → Model → Model × List Cmd
  unfolding on_react_result
  update now (chats_loaded chats) m = on_chats_loaded now chats m
  update now (preview_loaded p) m = (apply_preview_loaded p m, [])
  update now (ws_event e) m =
      let (m', cmds) = apply_ws_event e m in
      let (m'', all) = with_previews cmds m' in (m'', all ++ wait_for_ws_event m'')
  update now (contacts_loaded cts) m = (apply_contacts_loaded cts m, [])
  update now (chat_refreshed c) m =
      maybe_save_cache now
        (apply_chat_refreshed (get_or (resolve_chat_titles m.contacts (c ∷ [])) 0 c) m)
  update now poll_ticked m = apply_poll_tick m
  update now (messages_refreshed id msgs) m = with_previews [] (apply_messages_refreshed id msgs m)
  update now (messages_loaded id msgs) m = on_messages_loaded id msgs m
  update now (search_loaded query rs) m = (on_search_loaded query rs m, [])
  update now (self_users_loaded users) m = (record m { self_users = users }, [])
  update now (media_preview key preview) m =
      (clamp_window (record m { media_previews = insert key preview m.media_previews }), [])
  update now (open_result err) m = (record m { media_err = err }, [])
  update now (clipboard_image path) m =
      (record m { compose_err = none; compose_atts = m.compose_atts ++ path ∷ [] }, [])
  update now (clipboard_error err) m = (record m { compose_err = some err }, [])
  update now (paste content) m = handle_paste content m
  update now (react_result id err) m = on_react_result id err m
  update now (send_result local_id text atts err) m = on_send_result local_id text atts err m
  update now (archive_result id archived err) m = on_archive_result id archived err m
  update now (load_error chat_id query err) m = (on_load_error chat_id query err m, [])
  update now (window_size w h) m = (clamp_window (record m { width = w; height = h }), [])
  update now (chat_event ev) m = apply_chat_event ev m
  update now (chat_model id err) m = (on_chat_model id err m, [])
  update now (key_press key text) m = key_in m.mode now key text m

-- `Init`.
unfoldable pub init : Model → List Cmd
init m = load_chats ∷ load_contacts ∷ load_self_users ∷ wait_for_ws_event m ++ poll_tick ∷ []
