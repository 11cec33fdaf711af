-- ===== src/Nav/Keys/Jump.antt =====
-- internal/ui/nav.go: the two keys that jump to the top.
use beeper_tui.Base.{◌≡◌, refl, sym, true, false, String, ◌==◌}
use beeper_tui.Platform.{Platform}
use beeper_tui.Model.{Model}
use beeper_tui.Nav.Cursor.{jump_top}
use beeper_tui.Nav.Keys.{handle_key, on_key, with_preview}

module _ ⦃platform : Platform⦄ where
  first_g : (m : Model) → m.pending_g ≡ false → (handle_key "g" m).0 ≡ record m { pending_g = true }
  unfolding handle_key on_key
  first_g m h = rw h refl

  second_g :
      (m : Model)
      → m.pending_g ≡ false
      → handle_key "g" (record m { pending_g = true }) ≡ with_preview (jump_top m)
  unfolding handle_key on_key
  second_g m h = λ i. with_preview (jump_top (record m { pending_g = sym h i }))

  other_key :
      (m : Model) (key : String)
      → (key == "g") ≡ false
      → handle_key key (record m { pending_g = true }) ≡ handle_key key m
  unfolding handle_key
  other_key m key h = rw h refl

  -- The key `g` typed twice jumps to the top, and a single one is forgotten: another key after it does
  -- what it does without it.
  pub g_twice :
      (m : Model) (key : String)
      → m.pending_g ≡ false
      → (key == "g") ≡ false
      → (handle_key "g" (handle_key "g" m).0 ≡ with_preview (jump_top m))
        × (handle_key key (handle_key "g" m).0 ≡ handle_key key m)
  g_twice m key h other = rw (first_g m h) (second_g m h, other_key m key other)
