-- ===== src/Examples/Window.antt =====
-- Scrolling, tabs and keys on concrete states.
use beeper_tui.Base.{◌<◌, ◌≤◌, ◌≡◌, refl, ◌+◌, arith, length}
use beeper_tui.Model.{new}
use beeper_tui.Tab.{includes, inbox, count}
use beeper_tui.Nav.Rows.{clamp_window-row}
use beeper_tui.Nav.Window.{
  visible_rows, selected_visible_chat_pos, indexes_where, pos_of, clamp_window,
  visible_chat_indexes,
}
use beeper_tui.Nav.Bounds.{IsShown, clamp_window-IsShown}
use beeper_tui.Nav.Chats.{cycle_tab}
use beeper_tui.Nav.Chats.Cycle.{IsInStep, cycle_tab-IsInStep}
use beeper_tui.Nav.Cursor.{up}
use beeper_tui.Tab.Badges.{length-visible}
use beeper_tui.Examples.{plain_platform, two_chats, three_messages}

clamp_window-IsShown_example : IsShown (clamp_window three_messages)
clamp_window-IsShown_example = clamp_window-IsShown three_messages refl (omega arith)

cycle_tab-IsInStep_example : IsInStep (cycle_tab up two_chats).0
cycle_tab-IsInStep_example = cycle_tab-IsInStep up two_chats

length-visible_example : length (visible_chat_indexes two_chats) ≡ count inbox two_chats.chats
unfolding new
length-visible_example = length-visible two_chats refl

clamp_window-row_example :
    ((clamp_window two_chats).offset ≤ 1)
    × (1 < (clamp_window two_chats).offset + visible_rows two_chats)
unfolding new visible_chat_indexes selected_visible_chat_pos indexes_where pos_of includes
clamp_window-row_example = clamp_window-row two_chats 1 refl refl
