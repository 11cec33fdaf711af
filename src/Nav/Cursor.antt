-- ===== src/Nav/Cursor.antt =====
-- internal/ui/nav.go: the motions. `dir` is -1 or +1 in the source, here a direction; subtraction on
-- positions stops at 0, where the source clamps a negative position to 0.
use beeper_tui.Base.{
  ℕ, suc, ◌+◌, ◌-◌, ◌/◌, ℤ, pos, ◌+ℤ◌, sub_ℕ, pos_part, neg_part, ltb_ℤ, List, [], ◌∷◌, Option,
  none, some, if◌then◌else◌, ltb, length, get_or,
}
use beeper_tui.Platform.{Platform}
use beeper_tui.Model.{Model, Mode, list, conversation, insert, search, react, chat, chat_insert}
use beeper_tui.Nav.Window.{
  visible_rows, visible_chat_indexes, selected_visible_chat_pos, max_msg_offset, clamp_window,
}

pub data Dir : Type 0 where
  up down : Dir

abbrev pub move : Dir → ℕ → ℕ → ℕ
move up k i = i - k
move down k i = i + k

abbrev pub shift : Dir → ℕ → ℤ → ℤ
shift up k z = sub_ℕ (pos_part z) (neg_part z + k)
shift down k z = z +ℤ pos k

-- A position clamped to the last of `n`.
abbrev pub at_most_last : ℕ → ℕ → ℕ
at_most_last n i = if ltb (n - 1) i then n - 1 else i

-- `if pos < 0 { pos = 0 }`.
abbrev pub or_zero : Option ℕ → ℕ
or_zero none = 0
or_zero (some i) = i

-- `len(m.messages) - 1`.
abbrev pub last_message : Model → ℤ
last_message m = sub_ℕ (length m.messages) 1

abbrev pub page_step : Model → ℕ
page_step m = let step = visible_rows m / 2 in if ltb step 1 then 1 else step

module _ ⦃platform : Platform⦄ where
  -- The chat after, or before, the selected one in the visible list.
  abbrev select_next : List ℕ → Option ℕ → Model → Model
  select_next indexes none m = m
  select_next indexes (some row) m =
      if ltb (suc row) (length indexes)
      then record m { selected = get_or indexes (suc row) m.selected }
      else m

  abbrev select_previous : List ℕ → Option ℕ → Model → Model
  select_previous indexes none m = m
  select_previous indexes (some row) m =
      if ltb 0 row then record m { selected = get_or indexes (row - 1) m.selected } else m

  abbrev down_in : Mode → Model → Model
  down_in list m =
      let indexes = visible_chat_indexes m in
      select_next indexes (selected_visible_chat_pos m indexes) m
  down_in search m =
      if ltb (suc m.search_selected) (length m.search_results)
      then record m { search_selected = suc m.search_selected }
      else m
  down_in conversation m =
      if ltb_ℤ m.msg_selected (last_message m)
      then record m { msg_selected = m.msg_selected +ℤ pos 1 }
      else m
  down_in insert m = m
  down_in react m = m
  down_in chat m = m
  down_in chat_insert m = m

  -- `cursorDown`.
  unfoldable pub cursor_down : Model → Model
  cursor_down m = clamp_window (down_in m.mode m)

  abbrev up_in : Mode → Model → Model
  up_in list m =
      let indexes = visible_chat_indexes m in
      select_previous indexes (selected_visible_chat_pos m indexes) m
  up_in search m =
      if ltb 0 m.search_selected then record m { search_selected = m.search_selected - 1 } else m
  up_in conversation m =
      if ltb_ℤ (pos 0) m.msg_selected
      then record m { msg_selected = shift up 1 m.msg_selected }
      else m
  up_in insert m = m
  up_in react m = m
  up_in chat m = m
  up_in chat_insert m = m

  -- `cursorUp`.
  unfoldable pub cursor_up : Model → Model
  cursor_up m = clamp_window (up_in m.mode m)

  -- The row of the visible list that half a page leads to.
  abbrev half_page_list : Dir → List ℕ → Model → Model
  half_page_list dir [] m = m
  half_page_list dir (x ∷ xs) m =
      let indexes = x ∷ xs in
      let row = or_zero (selected_visible_chat_pos m indexes) in
      let row' = at_most_last (length indexes) (move dir (page_step m) row) in
      clamp_window (record m { selected = get_or indexes row' m.selected })

  abbrev half_page_in : Mode → Dir → Model → Model
  half_page_in list dir m = half_page_list dir (visible_chat_indexes m) m
  half_page_in search dir m = elim m.search_results [
    | [] ↦ m
    | _ ∷ _ ↦ clamp_window (record m {
      search_selected =
          at_most_last (length m.search_results) (move dir (page_step m) m.search_selected);
    })
  ]
  half_page_in conversation dir m =
      clamp_window (record m { msg_selected = shift dir (page_step m) m.msg_selected })
  half_page_in insert dir m = clamp_window m
  half_page_in react dir m = clamp_window m
  half_page_in chat dir m = clamp_window m
  half_page_in chat_insert dir m = clamp_window m

  -- `halfPage`.
  unfoldable pub half_page : Dir → Model → Model
  half_page dir m = half_page_in m.mode dir m

  -- `m.selected = indexes[0]`, where there is one.
  abbrev pub select_first : List ℕ → Model → Model
  select_first [] m = m
  select_first (x ∷ xs) m = record m { selected = x }

  abbrev top_in : Mode → Model → Model
  top_in list m = select_first (visible_chat_indexes m) m
  top_in search m = record m { search_selected = 0 }
  top_in conversation m = record m { msg_selected = pos 0; msg_offset = 0 }
  top_in insert m = m
  top_in react m = m
  top_in chat m = m
  top_in chat_insert m = m

  -- `jumpTop`.
  unfoldable pub jump_top : Model → Model
  jump_top m = clamp_window (top_in m.mode m)

  abbrev bottom_in : Mode → Model → Model
  bottom_in list m =
      let indexes = visible_chat_indexes m in
      record m { selected = get_or indexes (length indexes - 1) m.selected }
  bottom_in search m = record m {
    search_selected =
        if ltb 0 (length m.search_results) then length m.search_results - 1 else m.search_selected;
  }
  bottom_in conversation m = record m {
    msg_selected = last_message m;
    msg_offset = max_msg_offset m;
  }
  bottom_in insert m = m
  bottom_in react m = m
  bottom_in chat m = m
  bottom_in chat_insert m = m

  -- `jumpBottom`.
  unfoldable pub jump_bottom : Model → Model
  jump_bottom m = clamp_window (bottom_in m.mode m)
