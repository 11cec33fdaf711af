-- ===== src/React/Toggle.antt =====
-- internal/ui/react.go: toggling a reaction, and the numbered slots of the picker.
use beeper_tui.Base.{
  ◌≡◌, ◌≢◌, refl, ◌≤◌, true, false, not, ◌||◌, String, ◌==◌, eq_iff, eq_refl, List, [], ◌∷◌, ◌++◌,
  arith, any, keep, length, length-append, Bool-cases, inl, inr, leb, if◌then◌else◌,
}
use beeper_tui.Api.{Reaction}
use beeper_tui.Model.{Model}
use beeper_tui.React.{
  toggled, own, looks_emoji, add_slots, react_slots, max_react_slots, member, reaction_keys,
  presets, current_chat,
}
use beeper_tui.Media.{cursor_message}

any-append_own :
    (key self : String) (rs : List Reaction)
    → any
        (own key self)
        (rs ++ record { key = key; emoji = looks_emoji key; participant_id = self } ∷ [])
      ≡ true
any-append_own key self [] = ground (arith, eq_refl key, eq_refl self)
any-append_own key self (r ∷ rs) = ground (arith, any-append_own key self rs)

keep-append_own :
    (key self : String) (rs : List Reaction)
    → any (own key self) rs ≡ false
    → keep
        (λ r. not (own key self r))
        (rs ++ record { key = key; emoji = looks_emoji key; participant_id = self } ∷ [])
      ≡ rs
keep-append_own key self [] h = ground (arith, eq_refl key, eq_refl self)
keep-append_own key self (r ∷ rs) h = ground (arith, keep-append_own key self rs)

none_left :
    (key self : String) (rs : List Reaction)
    → any (own key self) (keep (λ r. not (own key self r)) rs) ≡ false
none_left key self [] = refl
none_left key self (r ∷ rs) = ground (arith, none_left key self rs)

-- Toggling twice a reaction that the user has not made adds it and removes it again: the reactions
-- are what they were, and the second toggle asks the server for a removal.
pub toggled_twice :
    (key self : String) (rs : List Reaction)
    → self ≢ ""
    → any (own key self) rs ≡ false
    → toggled key self (toggled key self rs).0 ≡ (rs, true)
unfolding toggled
toggled_twice key self rs known h =
    let ne : (self == "") ≡ false = ground (arith, eq_iff self "") in
    rw (ne, h, any-append_own key self rs, keep-append_own key self rs h)

-- A list of texts without repetition.
abbrev pub IsDistinct : List String → Type 0
IsDistinct [] = Unit
IsDistinct (k ∷ ks) = (member k ks ≡ false) × IsDistinct ks

member-append :
    (k : String) (xs ys : List String) → member k (xs ++ ys) ≡ (member k xs || member k ys)
member-append k [] ys = refl
member-append k (x ∷ xs) ys = ground (arith, member-append k xs ys)

IsDistinct-snoc :
    (ks : List String) (k : String)
    → IsDistinct ks
    → member k ks ≡ false
    → IsDistinct (ks ++ k ∷ [])
IsDistinct-snoc [] k d h = (refl, tt)
IsDistinct-snoc (x ∷ xs) k (p, d) h = (
  ground (arith, member-append x xs (k ∷ []), eq_iff k x, eq_iff x k),
  IsDistinct-snoc xs k d (ground arith),
)

-- What every step of filling the slots keeps.
abbrev pub AreSlots : List String → Type 0
AreSlots ks = IsDistinct ks × (length ks ≤ max_react_slots)

step_keeps :
    (slots : List String) (k : String)
    → AreSlots slots
    → AreSlots
        (if leb max_react_slots (length slots) || member k slots then slots else slots ++ k ∷ [])
step_keeps slots k (d, b) =
    elim (Bool-cases (leb max_react_slots (length slots) || member k slots)) [
      | inl full ↦ rw full (d, b)
      | inr free ↦
          rw free
            (IsDistinct-snoc slots k d (ground arith), ground (arith, length-append slots (k ∷ [])))
    ]

add_slots-AreSlots : (ks slots : List String) → AreSlots slots → AreSlots (add_slots slots ks)
unfolding add_slots
add_slots-AreSlots [] slots h = h
add_slots-AreSlots (k ∷ ks) slots h = add_slots-AreSlots ks _ (step_keeps slots k h)

-- The picker has at most nine slots, one for each digit key, and no reaction twice.
pub react_slots-AreSlots : (m : Model) → AreSlots (react_slots m)
unfolding react_slots
react_slots-AreSlots m =
    add_slots-AreSlots (presets (current_chat m)) _
      (add_slots-AreSlots (reaction_keys (cursor_message m)) [] (tt, omega arith))
