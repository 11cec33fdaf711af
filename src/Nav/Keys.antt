-- ===== src/Nav/Keys.antt =====
-- internal/ui/nav.go: `handleKey`, the keys of the list and of a conversation.
pub mod Jump
use beeper_tui.Base.{true, false, ◌||◌, String, ◌==◌, List, [], ◌∷◌, if◌then◌else◌}
use beeper_tui.Platform.{Platform}
use beeper_tui.Model.{Model, Mode, Cmd, quit, is_list, is_conversation}
use beeper_tui.Preview.{preview_load, toggle_preview}
use beeper_tui.Media.{open_cursor_attachment}
use beeper_tui.Messages.{retry_failed_send}
use beeper_tui.React.{open_react_picker}
use beeper_tui.Events.{retry_connection}
use beeper_tui.Nav.Cursor.{up, down, cursor_down, cursor_up, half_page, jump_top, jump_bottom}
use beeper_tui.Nav.Chats.{cycle_tab, open_selected, back_to_list, archive_selected}
use beeper_tui.Nav.Search.{start_search}

-- A motion, and the preview of the chat that it leads to.
abbrev pub with_preview : Model → Model × List Cmd
with_preview m = (m, preview_load m)

module _ ⦃platform : Platform⦄ where
  -- The switch, for a model whose pending `g` is cleared unless the key is `g`.
  unfoldable pub on_key : String → Model → Model × List Cmd
  on_key key m =
      if key == "ctrl+c"
      then (m, quit ∷ [])
      else if key == "q"
      then (if is_conversation m.mode then (back_to_list m, []) else (m, quit ∷ []))
      else if key == "/"
      then (start_search m, [])
      else if key == "j" || key == "down"
      then with_preview (cursor_down m)
      else if key == "k" || key == "up"
      then with_preview (cursor_up m)
      else if key == "ctrl+d"
      then with_preview (half_page down m)
      else if key == "ctrl+u"
      then with_preview (half_page up m)
      else if key == "l" || key == "right" || key == "tab"
      then (if is_list m.mode then cycle_tab down m else (m, []))
      else if key == "h" || key == "left" || key == "shift+tab"
      then (if is_list m.mode then cycle_tab up m else (m, []))
      else if key == "G"
      then with_preview (jump_bottom m)
      else if key == "g"
      then (if m.pending_g
          then with_preview (jump_top (record m { pending_g = false }))
          else (record m { pending_g = true }, []))
      else if key == "p"
      then toggle_preview m
      else if key == "r"
      then (if is_conversation m.mode then (open_react_picker m, []) else retry_connection m)
      else if key == "i"
      then (record m { mode = if is_conversation m.mode then Mode.insert else m.mode }, [])
      else if key == "o"
      then (if is_conversation m.mode then open_cursor_attachment m else (m, []))
      else if key == "R"
      then (if is_conversation m.mode then retry_failed_send m else (m, []))
      else if key == "a"
      then archive_selected m
      else if key == "enter"
      then (if is_list m.mode then open_selected m else (m, []))
      else (m, [])

  -- `handleKey`.
  unfoldable pub handle_key : String → Model → Model × List Cmd
  unfolding on_key
  handle_key key m = on_key key (record m { pending_g = if key == "g" then m.pending_g else false })
