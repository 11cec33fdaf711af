-- ===== src/Nav/Bounds.antt =====
-- The scroll window of the whole state: what `clampWindow` ensures in each mode.
use beeper_tui.Base.{
  eqb, Bool-cases, true, false, ℕ, ◌≤◌, ◌<◌, ◌≡◌, refl, sym, ◌∙◌, ap, ◌⊎◌, inl, inr, ℤ, pos, negsuc,
  Option, none, some, arith, length, gt→eqb_zero,
}
use beeper_tui.Platform.{Platform}
use beeper_tui.Model.{Model, Mode, list, conversation, insert, search, react, chat, chat_insert}
use beeper_tui.View.{msg_lines}
use beeper_tui.Nav.Window.{
  visible_rows, max_msg_offset, lines_between, clamp_index, clamp_offset, scroll_to, clamp_window,
  clamp_mode, clamp_list, clamp_search, place_search, clamp_conversation, place_cursor,
  visible_chat_indexes, selected_visible_chat_pos,
}
use beeper_tui.Nav.Cursor.{at_most_last}
use beeper_tui.Nav.Window.Scroll.{
  clamp_offset-IsSettled, clamp_offset-le_top, clamp_offset_kept, scroll_to_idem,
}

pub clamp_index-lt : (z : ℤ) (n : ℕ) → 0 < n → clamp_index z n < n
clamp_index-lt (negsuc k) n p = p
clamp_index-lt (pos i) n p = ground arith

-- The cursor message is there and on the screen, and the window does not pass the bottom.
pub record IsShown (m : Model) : Type 0 where
  pub cursor : ℕ
  pub at : m.msg_selected ≡ pos cursor
  pub in_range : cursor < length m.messages
  pub not_above : m.msg_offset ≤ cursor
  pub not_below :
      (m.msg_offset ≡ cursor)
      ⊎ (lines_between (msg_lines m) (length m.messages) m.msg_offset cursor ≤ visible_rows m)
  pub not_past : m.msg_offset ≤ max_msg_offset m

clamp_index_kept : (i n : ℕ) → i < n → clamp_index (pos i) n ≡ i
clamp_index_kept i n p = ground arith

clamp_search_empty :
    (m : Model)
    → eqb (length m.search_results) 0 ≡ true
    → clamp_search m ≡ record m { search_selected = 0; search_offset = 0 }
clamp_search_empty m e = rw e

clamp_search_some :
    (m : Model) → eqb (length m.search_results) 0 ≡ false → clamp_search m ≡ place_search m
clamp_search_some m e = rw e

at_most_last_idem : (n i : ℕ) → at_most_last n (at_most_last n i) ≡ at_most_last n i
at_most_last_idem n i = ground arith

place_search_idem : (m : Model) → place_search (place_search m) ≡ place_search m
unfolding visible_rows
place_search_idem m =
    let n = length m.search_results in
    let sel = at_most_last_idem n m.search_selected in
    let row = at_most_last n m.search_selected in
    let vr = visible_rows m in
    λ i. record m {
      search_selected = sel i;
      search_offset =
          (ap (λ s. scroll_to s (scroll_to row m.search_offset vr) vr) sel
              ∙ scroll_to_idem row m.search_offset vr (ground arith))
            i;
    }

clamp_conversation_empty :
    (m : Model)
    → eqb (length m.messages) 0 ≡ true
    → clamp_conversation m ≡ record m { msg_selected = pos 0; msg_offset = 0 }
clamp_conversation_empty m e = rw e

module _ ⦃platform : Platform⦄ where
  place_cursor-IsShown : (m : Model) → 0 < length m.messages → IsShown (place_cursor m)
  unfolding msg_lines visible_rows max_msg_offset
  place_cursor-IsShown m p =
      let n = length m.messages in
      let sel = clamp_index m.msg_selected n in
      let lt = clamp_index-lt m.msg_selected n p in
      let settled = clamp_offset-IsSettled (msg_lines m) (visible_rows m) n sel lt m.msg_offset in
      record {
        cursor = sel;
        at = refl;
        in_range = lt;
        not_above = settled.0;
        not_below = settled.1;
        not_past = clamp_offset-le_top (msg_lines m) (visible_rows m) n sel lt m.msg_offset;
      }

  clamp_conversation_nonempty :
      (m : Model) → 0 < length m.messages → clamp_conversation m ≡ place_cursor m
  clamp_conversation_nonempty m p = rw (gt→eqb_zero _ p)

  clamp_window_conversation :
      (m : Model) → m.mode ≡ conversation → clamp_window m ≡ clamp_conversation m
  unfolding clamp_window
  clamp_window_conversation m e = ap (λ mode. clamp_mode mode m) e

  -- In a conversation with messages, `clampWindow` leaves the cursor on a message that is on the
  -- screen, at an offset not past the bottom.
  pub clamp_window-IsShown :
      (m : Model) → m.mode ≡ conversation → 0 < length m.messages → IsShown (clamp_window m)
  clamp_window-IsShown m e p =
      rw (clamp_window_conversation m e, clamp_conversation_nonempty m p) (place_cursor-IsShown m p)

  -- The cursor of a conversation with messages is clamped into them.
  pub clamp_window-cursor :
      (m : Model)
      → m.mode ≡ conversation
      → 0 < length m.messages
      → (clamp_window m).msg_selected ≡ pos (clamp_index m.msg_selected (length m.messages))
  clamp_window-cursor m e p =
      rw (clamp_window_conversation m e, clamp_conversation_nonempty m p) refl

  -- A state whose cursor is already shown is not moved.
  place_cursor_kept : (m : Model) → IsShown m → place_cursor m ≡ m
  unfolding max_msg_offset
  place_cursor_kept m s =
      let n = length m.messages in
      let sel : clamp_index m.msg_selected n ≡ s.cursor =
        rw (s.at) (clamp_index_kept s.cursor n s.in_range) in
      let off : clamp_offset (msg_lines m) (visible_rows m) n (clamp_index m.msg_selected n)
            m.msg_offset
          ≡ m.msg_offset =
        rw sel (
          clamp_offset_kept (msg_lines m) (visible_rows m) n s.cursor s.in_range m.msg_offset
            s.not_past (s.not_above, s.not_below)) in
      λ i. record m { msg_selected = (ap pos sel ∙ sym s.at) i; msg_offset = off i }

  pub in_mode : (m : Model) (mode : Mode) → m.mode ≡ mode → clamp_window m ≡ clamp_mode mode m
  unfolding clamp_window
  in_mode m mode e = ap (λ mode. clamp_mode mode m) e

  pub rows_pos : (m : Model) → 0 < visible_rows m
  unfolding visible_rows
  rows_pos m = ground arith

  -- The row of the selected chat does not depend on the offset.
  list_idem :
      (m : Model)
      → m.mode ≡ list
      → (row : Option ℕ) → selected_visible_chat_pos m (visible_chat_indexes m) ≡ row
      → clamp_window (clamp_list row m) ≡ clamp_list row m
  unfolding visible_chat_indexes selected_visible_chat_pos visible_rows
  list_idem m e none p =
      let m' = record m { offset = 0 } in in_mode m' list e ∙ ap (λ row. clamp_list row m') p
  list_idem m e (some row) p =
      let m' = clamp_list (some row) m in
      in_mode m' list e
      ∙ ap (λ row. clamp_list row m') p
      ∙ (λ i. record m { offset = scroll_to_idem row m.offset (visible_rows m) (rows_pos m) i })

  search_idem : (m : Model) → m.mode ≡ search → clamp_window (clamp_search m) ≡ clamp_search m
  unfolding visible_rows
  search_idem m e = elim (Bool-cases (eqb (length m.search_results) 0)) [
    | inl empty ↦
        let m' = record m { search_selected = 0; search_offset = 0 } in
        rw empty (in_mode m' search e ∙ clamp_search_empty m' empty)
    | inr found ↦ rw found (
        in_mode (place_search m) search e
        ∙ clamp_search_some (place_search m) found
        ∙ place_search_idem m)
  ]

  conversation_idem :
      (m : Model)
      → m.mode ≡ conversation
      → clamp_window (clamp_conversation m) ≡ clamp_conversation m
  conversation_idem m e = elim (Bool-cases (eqb (length m.messages) 0)) [
    | inl empty ↦
        let m' = record m { msg_selected = pos 0; msg_offset = 0 } in
        rw empty (in_mode m' conversation e ∙ clamp_conversation_empty m' empty)
    | inr found ↦
        let m' = place_cursor m in
        let shown = place_cursor-IsShown m (ground arith) in
        rw found (
          in_mode m' conversation e
          ∙ clamp_conversation_nonempty m' (ground arith)
          ∙ place_cursor_kept m' shown)
  ]

  idem_in :
      (mode : Mode) (m : Model)
      → m.mode ≡ mode
      → clamp_window (clamp_mode mode m) ≡ clamp_mode mode m
  idem_in list m e = list_idem m e (selected_visible_chat_pos m (visible_chat_indexes m)) refl
  idem_in search m e = search_idem m e
  idem_in conversation m e = conversation_idem m e
  idem_in insert m e = in_mode m insert e
  idem_in react m e = in_mode m react e
  idem_in chat m e = in_mode m chat e
  idem_in chat_insert m e = in_mode m chat_insert e

  -- Clamping a second time changes nothing, in any mode.
  pub clamp_window_idem : (m : Model) → clamp_window (clamp_window m) ≡ clamp_window m
  unfolding clamp_window
  clamp_window_idem m = idem_in m.mode m refl
