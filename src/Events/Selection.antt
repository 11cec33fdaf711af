-- ===== src/Events/Selection.antt =====
-- The selection stays on its chat while the list changes under it.
use beeper_tui.Base.{◌≡◌, ◌≢◌, ◌∙◌, String, ◌==◌, eq_iff, false, some, get_elem?, arith}
use beeper_tui.Platform.{Platform}
use beeper_tui.Api.{Chat}
use beeper_tui.Model.{Model}
use beeper_tui.Cache.{selected_id}
use beeper_tui.Sorting.{sort_chats, reselect_by_id}
use beeper_tui.Sorting.Select.{has_id_of_get_elem?, reselect-sort}
use beeper_tui.Nav.Window.{clamp_window}
use beeper_tui.Nav.Frame.{chats-clamp_window, selected-clamp_window}
use beeper_tui.Events.{resort_keeping_selection}

pub selected_id_of :
    (m : Model) (c : Chat) → get_elem? m.chats m.selected ≡ some c → selected_id m ≡ c.id
unfolding selected_id
selected_id_of m c e = rw e

pub ne_empty : (s : String) → s ≢ "" → (s == "") ≡ false
ne_empty s h = ground (arith, eq_iff s "")

module _ ⦃platform : Platform⦄ where
  clamped : (m : Model) → selected_id (clamp_window m) ≡ selected_id m
  unfolding selected_id
  clamped m = rw (chats-clamp_window m, selected-clamp_window m)

  -- Sorting the list again leaves a chat with the same ID selected.
  pub selected_id-resort :
      (m : Model) (c : Chat)
      → get_elem? m.chats m.selected ≡ some c
      → c.id ≢ ""
      → selected_id (resort_keeping_selection m) ≡ c.id
  unfolding resort_keeping_selection
  selected_id-resort m c e ne =
      let (d, at, same) = reselect-sort m.chats c.id (has_id_of_get_elem? m.chats m.selected c e) in
      let sorted = record m {
        chats = sort_chats m.chats;
        selected = reselect_by_id (sort_chats m.chats) c.id;
      } in
      rw (selected_id_of m c e, ne_empty c.id ne)
        (clamped sorted ∙ selected_id_of sorted d at ∙ same)
