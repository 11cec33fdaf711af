-- ===== src/Tab/Badges.antt =====
-- internal/ui/tab.go and nav.go: a tab's badge and the rows that the tab shows.
use beeper_tui.Base.{◌≡◌, refl, ℕ, suc, false, List, [], ◌∷◌, arith, length}
use beeper_tui.Platform.{Platform}
use beeper_tui.Api.{Chat}
use beeper_tui.Tab.{Tab, includes, count}
use beeper_tui.Model.{Model, is_search}
use beeper_tui.Nav.Window.{indexes_where, visible_chat_indexes}

length-indexes :
    (t : Tab) (i : ℕ) (cs : List Chat) → length (indexes_where (includes t) i cs) ≡ count t cs
unfolding indexes_where count
length-indexes t i [] = refl
length-indexes t i (c ∷ cs) = ground (arith, length-indexes t (suc i) cs)

module _ ⦃platform : Platform⦄ where
  -- Outside the search the list shows as many rows as the badge of the tab counts.
  pub length-visible :
      (m : Model) → is_search m.mode ≡ false → length (visible_chat_indexes m) ≡ count m.tab m.chats
  unfolding visible_chat_indexes
  length-visible m h = rw h (length-indexes m.tab 0 m.chats)
