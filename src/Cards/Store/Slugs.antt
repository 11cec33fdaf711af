-- ===== src/Cards/Store/Slugs.antt =====
-- internal/person/card.go: names that the file names do not tell apart.
use Prim.Native.Char.{code}
use beeper_tui.Base.{
  ◌≡◌, refl, sym, ◌∙◌, ap, Bool, true, false, not, ◌&&◌, String, Bool-cases, inl, inr, arith,
  trim_space,
}
use beeper_tui.Platform.{Platform}
use beeper_tui.Cards.{slug, slug_text, is_kept, is_dash, trim_left_dash, trim_right_dash}

-- No character is a letter from a to z or a digit.
unfoldable pub is_foreign : String → Bool
is_foreign String.[] = true
is_foreign (String.◌∷◌ c s) = not (is_kept (code c)) && is_foreign s

not_first : (a b : Bool) → (not a && b) ≡ true → a ≡ false
not_first a b h = ground arith

second : (a b : Bool) → (not a && b) ≡ true → b ≡ true
second a b h = ground arith

slug_text_foreign : (s : String) → is_foreign s ≡ true → trim_left_dash (slug_text s) ≡ ""
unfolding is_foreign slug_text trim_left_dash
slug_text_foreign String.[] h = refl
slug_text_foreign (String.◌∷◌ c s) h =
    let later = slug_text_foreign s (second (is_kept (code c)) (is_foreign s) h) in
    elim (Bool-cases (is_dash (code c))) [
      | inl dashed ↦ rw (slug_text, not_first (is_kept (code c)) (is_foreign s) h, dashed) later
      | inr other ↦ rw (slug_text, not_first (is_kept (code c)) (is_foreign s) h, other) later
    ]

module _ ⦃platform : Platform⦄ where
  -- Two names that have, in lower case, no letter from a to z and no digit have one file name, the
  -- empty one, whatever the names are.
  pub slug_foreign :
      (a b : String)
      → is_foreign (platform.lower (trim_space a)) ≡ true
      → is_foreign (platform.lower (trim_space b)) ≡ true
      → (slug a ≡ "") × (slug a ≡ slug b)
  unfolding slug trim_right_dash
  slug_foreign a b ha hb =
      let at = ap trim_right_dash (slug_text_foreign (platform.lower (trim_space a)) ha) in
      let bt = ap trim_right_dash (slug_text_foreign (platform.lower (trim_space b)) hb) in
      (at, at ∙ sym bt)
