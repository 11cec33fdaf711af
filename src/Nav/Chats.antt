-- ===== src/Nav/Chats.antt =====
-- internal/ui/nav.go: switching tabs, opening a chat, going back, and archiving.
pub mod Cycle
pub mod Archive
use beeper_tui.Base.{
  ℕ, suc, ◌+◌, ◌-◌, ◌%◌, Bool, true, false, not, ◌&&◌, ◌||◌, String, ◌==◌, List, [], ◌∷◌, Option,
  none, some, if◌then◌else◌, leb, length, get_elem?, get_or, modify, is_some,
}
use mathlib.Core.Logic.{ite}
use beeper_tui.Platform.{Platform}
use beeper_tui.Api.{Chat}
use beeper_tui.Tab.{Tab, tab_order, chat_tab}
use beeper_tui.Model.{
  Model, Mode, Llm, list, conversation, Cmd, detect_model, load_messages, mark_read, archive_chat,
  is_list, is_conversation, is_chat,
}
use beeper_tui.Preview.{preview_load}
use beeper_tui.Nav.Window.{visible_chat_indexes, selected_visible_chat_pos, clamp_window}
use beeper_tui.Nav.Cursor.{Dir, up, down, select_first, at_most_last, or_zero}

pub Tab-discrete : Discrete Tab
Tab-discrete = hlevel

-- The position of a tab in the bar, 0 if it is not there.
abbrev tab_at : ℕ → Tab → List Tab → ℕ
tab_at i t [] = 0
tab_at i t (u ∷ us) = let rest = tab_at (suc i) t us in ite (Tab-discrete u t) i rest

-- `tabOrder[(cur+dir+len(tabOrder))%len(tabOrder)]`.
unfoldable pub next_tab : Dir → Tab → Tab
unfolding Tab-discrete
next_tab down t =
    get_or tab_order ((tab_at 0 t tab_order + 1 + length tab_order) % length tab_order) t
next_tab up t =
    get_or tab_order ((tab_at 0 t tab_order + length tab_order - 1) % length tab_order) t

-- internal/ui/chat.go: `enterChatTab`.
abbrev enter_with : Llm → Model → Model × List Cmd
enter_with llm m =
    let m' = record m {
      chat_model = if m.chat_model == "" && not (llm.model == "") then llm.model else m.chat_model;
    } in
    if not m.chat_checked && not m.chat_detecting
    then (record m' { chat_detecting = true }, detect_model ∷ [])
    else (m', [])

unfoldable pub enter_chat_tab : Model → Model × List Cmd
enter_chat_tab m =
    let m' = record m { mode = Mode.chat } in
    elim m.llm [ none ↦ (m', []) | some llm ↦ enter_with llm m' ]

-- `chatIndexByID`, none for -1.
unfoldable pub chat_index_by_id : List Chat → String → Option ℕ
chat_index_by_id [] id = none
chat_index_by_id (c ∷ cs) id =
    let rest = chat_index_by_id cs id in
    if c.id == id then some 0 else elim rest [ none ↦ none | some i ↦ some (suc i) ]

-- `m.chats[idx].Archived = archived`, if the chat is there.
abbrev pub set_archived : String → Bool → List Chat → List Chat
set_archived id archived chats = elim (chat_index_by_id chats id) [
  | none ↦ chats
  | some i ↦ modify chats i (λ c. record c { archived = archived })
]

module _ ⦃platform : Platform⦄ where
  -- `cycleTab`.
  unfoldable pub cycle_tab : Dir → Model → Model × List Cmd
  unfolding next_tab enter_chat_tab
  cycle_tab dir m =
      let m' = record m { tab = next_tab dir m.tab } in
      let m'' = record m' { mode = if is_chat m.mode then list else m.mode; offset = 0 } in
      let first = select_first (visible_chat_indexes m'') m'' in
      if chat_tab m'.tab then enter_chat_tab m' else (clamp_window first, preview_load first)

  -- `selectFirstVisibleChat`.
  abbrev select_visible : List ℕ → Model → Model
  select_visible [] m = record m { offset = 0 }
  select_visible (x ∷ xs) m =
      clamp_window
        (if is_some (selected_visible_chat_pos m (x ∷ xs)) then m else record m { selected = x })

  unfoldable pub select_first_visible_chat : Model → Model
  select_first_visible_chat m = select_visible (visible_chat_indexes m) m

  -- `openSelected`.
  unfoldable pub open_selected : Model → Model × List Cmd
  open_selected m = elim (get_elem? m.chats m.selected) [
    | none ↦ (m, [])
    | some c ↦ (
      record m {
        list_pos = selected_visible_chat_pos m (visible_chat_indexes m);
        mode = conversation;
        current_chat_id = c.id;
        messages = [];
        msg_offset = 0;
        conv_err = none;
        loading_msgs = true;
        archive_err = none;
      },
      load_messages c.id ∷ mark_read c.id ∷ [],
    )
  ]

  -- What `backToList` clears whichever view it returns to.
  abbrev pub clear_errors : Model → Model
  clear_errors m = record m {
    conv_err = none;
    archive_err = none;
    react_err = none;
    media_err = none;
    search_query = "";
    search_results = [];
    search_err = none;
    search_loading = false;
  }

  -- The cursor for a list from which the opened chat is gone: the row that the chat had.
  abbrev reselect_row : List ℕ → Model → Model
  reselect_row indexes m =
      if is_some (selected_visible_chat_pos m indexes) || leb (length indexes) 0
      then m
      else record m {
        selected = get_or indexes (at_most_last (length indexes) (or_zero m.list_pos)) m.selected;
      }

  -- `backToList`.
  unfoldable pub back_to_list : Model → Model
  back_to_list m =
      let m' = clear_errors m in
      let m'' = record m' { mode = list } in
      if m.return_to_chat
      then record m' { return_to_chat = false; tab = Tab.chat; mode = Mode.chat }
      else clamp_window (reselect_row (visible_chat_indexes m'') m'')

  -- The chat and the flag that `archiveSelected` acts on, none outside the list and a conversation.
  unfoldable pub archive_target : Model → Option (String × Bool)
  archive_target m =
      if is_list m.mode
      then elim (get_elem? m.chats m.selected) [ none ↦ none | some c ↦ some (c.id, c.archived) ]
      else if is_conversation m.mode
      then some (
        m.current_chat_id,
        elim (chat_index_by_id m.chats m.current_chat_id) [
          | none ↦ false
          | some i ↦ elim (get_elem? m.chats i) [ none ↦ false | some c ↦ c.archived ]
        ],
      )
      else none

  -- The request: none without an ID, or while another is in flight.
  abbrev pub archive_at : Option (String × Bool) → Model → Model × List Cmd
  archive_at none m = (m, [])
  archive_at (some (id, archived)) m =
      if id == "" || not (m.archiving_chat_id == "") then (m, []) else (
        record m { archiving_chat_id = id; archive_err = none },
        archive_chat id (not archived) ∷ [],
      )

  -- `archiveSelected`.
  unfoldable pub archive_selected : Model → Model × List Cmd
  archive_selected m = archive_at (archive_target m) m

  -- `applyArchive`.
  unfoldable pub apply_archive : String → Bool → Model → Model
  apply_archive id archived m =
      let m' = record m { chats = set_archived id archived m.chats } in
      let closed = record m' {
        current_chat_id = "";
        messages = [];
        msg_offset = 0;
        loading_msgs = false;
        conv_err = none;
      } in
      if archived && is_conversation m.mode && m.current_chat_id == id
      then (if m.return_to_chat
          then record closed { return_to_chat = false; tab = Tab.chat; mode = Mode.chat }
          else select_first_visible_chat (record closed { mode = list }))
      else select_first_visible_chat m'
