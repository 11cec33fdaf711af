-- ===== src/Nav/Search.antt =====
-- internal/ui/nav.go: the message search.
use beeper_tui.Base.{
  true, false, ◌||◌, String, ◌==◌, List, [], ◌∷◌, none, some, if◌then◌else◌, get_elem?,
  drop_last_rune, trim_space,
}
use Prim.Native.String.{◌++◌ as concat}
use beeper_tui.Platform.{Platform}
use beeper_tui.Model.{
  Model, list, conversation, search, Cmd, quit, search_messages, load_messages, mark_read,
}
use beeper_tui.Nav.Window.{visible_chat_indexes, selected_visible_chat_pos, clamp_window}
use beeper_tui.Nav.Cursor.{up, down, cursor_down, cursor_up, half_page, jump_bottom}
use beeper_tui.Nav.Chats.{chat_index_by_id}

-- The search fields as `startSearch` and the escape key leave them.
abbrev pub clear_search : Model → Model
clear_search m = record m {
  search_query = "";
  search_results = [];
  search_selected = 0;
  search_offset = 0;
  search_loading = false;
  search_err = none;
}

-- `startSearch`.
unfoldable pub start_search : Model → Model
start_search m = clear_search (record m { mode = search })

-- `searchAfterQueryChange`.
unfoldable pub search_after_query_change : Model → Model × List Cmd
search_after_query_change m =
    let m' = record m {
      search_results = [];
      search_selected = 0;
      search_offset = 0;
      search_err = none;
    } in
    if trim_space m.search_query == ""
    then (record m' { search_loading = false }, [])
    else (record m' { search_loading = true }, search_messages m.search_query ∷ [])

-- `m.selected = idx`, if the chat is known.
abbrev pub select_chat : String → Model → Model
select_chat id m = elim (chat_index_by_id m.chats id) [
  | none ↦ m
  | some i ↦ record m { selected = i }
]

module _ ⦃platform : Platform⦄ where
  -- `openSelectedSearchResult`.
  unfoldable pub open_selected_search_result : Model → Model × List Cmd
  open_selected_search_result m = elim (get_elem? m.search_results m.search_selected) [
    | none ↦ (m, [])
    | some r ↦
        let id = r.message.chat_id in
        let m' = record (select_chat id m) { mode = conversation } in
        (
          record m' {
            list_pos = selected_visible_chat_pos m' (visible_chat_indexes m');
            current_chat_id = id;
            messages = [];
            msg_offset = 0;
            conv_err = none;
            loading_msgs = true;
          },
          load_messages id ∷ mark_read id ∷ [],
        )
  ]

  -- `handleSearchKey`.
  unfoldable pub handle_search_key : String → String → Model → Model × List Cmd
  handle_search_key key text m =
      if key == "ctrl+c"
      then (m, quit ∷ [])
      else if key == "esc" || key == "q"
      then (clamp_window (clear_search (record m { mode = list })), [])
      else if key == "enter"
      then open_selected_search_result m
      else if key == "backspace"
      then search_after_query_change (record m { search_query = drop_last_rune m.search_query })
      else if key == "j" || key == "down"
      then (cursor_down m, [])
      else if key == "k" || key == "up"
      then (cursor_up m, [])
      else if key == "ctrl+d"
      then (half_page down m, [])
      else if key == "ctrl+u"
      then (half_page up m, [])
      else if key == "G"
      then (jump_bottom m, [])
      else if text == ""
      then (m, [])
      else search_after_query_change (record m { search_query = concat m.search_query text })
