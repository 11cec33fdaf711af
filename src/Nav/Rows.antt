-- ===== src/Nav/Rows.antt =====
-- internal/ui/nav.go: the selected chat of the list stays on the screen.
use beeper_tui.Base.{◌≡◌, ap, ◌∙◌, ℕ, ◌+◌, ◌≤◌, ◌<◌, some}
use beeper_tui.Platform.{Platform}
use beeper_tui.Model.{Model, list}
use beeper_tui.Nav.Window.{
  visible_rows, visible_chat_indexes, selected_visible_chat_pos, clamp_window, clamp_list,
}
use beeper_tui.Nav.Window.Scroll.{scroll_to_visible}
use beeper_tui.Nav.Bounds.{in_mode, rows_pos}

module _ ⦃platform : Platform⦄ where
  offset-clamp_list :
      (m : Model) (row : ℕ)
      → ((clamp_list (some row) m).offset ≤ row)
        × (row < (clamp_list (some row) m).offset + visible_rows m)
  offset-clamp_list m row = scroll_to_visible row m.offset (visible_rows m) (rows_pos m)

  -- In the chat list `clampWindow` leaves the row of the selected chat between the first and the last
  -- row of the screen.
  pub clamp_window-row :
      (m : Model) (row : ℕ)
      → m.mode ≡ list
      → selected_visible_chat_pos m (visible_chat_indexes m) ≡ some row
      → ((clamp_window m).offset ≤ row) × (row < (clamp_window m).offset + visible_rows m)
  clamp_window-row m row e p =
      rw (in_mode m list e ∙ ap (λ r. clamp_list r m) p) (offset-clamp_list m row)
