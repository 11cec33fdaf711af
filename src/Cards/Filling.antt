-- ===== src/Cards/Filling.antt =====
-- internal/person/extract.go: what `Merge` changes.
pub mod Again
use beeper_tui.Base.{
  ◌≡◌, refl, sym, ap, ◌∙◌, ℕ, String, ◌==◌, List, [], ◌∷◌, ◌++◌, Bool, true, false, not, ◌||◌, any,
  map, if◌then◌else◌, trim_space, Bool-cases, inl, inr, arith, eq_iff, insert, texts,
}
use beeper_tui.Platform.{Platform}
use beeper_tui.Cards.{
  Card, Fact, Found, Merged, fill, is_set, note, like_key, add_like, merge_likes, merge_card,
}

append_nil : (xs : List String) → xs ++ [] ≡ xs
append_nil [] = refl
append_nil (x ∷ xs) = ap (λ r. x ∷ r) (append_nil xs)

append_assoc : (xs ys zs : List String) → (xs ++ ys) ++ zs ≡ xs ++ (ys ++ zs)
append_assoc [] ys zs = refl
append_assoc (x ∷ xs) ys zs = ap (λ r. x ∷ r) (append_assoc xs ys zs)

-- A field is filled only where it was empty.
pub fill_lem :
    (dst : String) (fact : Fact)
    → fill dst fact ≡ (if dst == "" then trim_space fact.value else dst)
unfolding fill
fill_lem dst fact = elim (Bool-cases (dst == "")) [
  | inl empty ↦
      rw (fill, empty)
        elim (Bool-cases (trim_space fact.value == "")) [
          | inl nothing ↦ rw (nothing) ((eq_iff _ _).0 empty ∙ sym ((eq_iff _ _).0 nothing))
          | inr value ↦ rw (value) refl
        ]
  | inr full ↦ rw (fill, full) refl
]

-- The likes that `m` has stand first in those of `m'`.
abbrev Extends : Merged → Merged → Type 0
Extends m m' = (more : List String) × (m'.likes ≡ m.likes ++ more)

module _ ⦃platform : Platform⦄ where
  merge_likes-Extends :
      (have : List String) (facts : List Fact) (m : Merged) → Extends m (merge_likes have facts m)
  unfolding merge_likes
  merge_likes-Extends have [] m = ([], sym (append_nil m.likes))
  merge_likes-Extends have (fact ∷ facts) m =
      elim (Bool-cases (trim_space fact.value == "" || any (λ k. k == like_key fact.value) have)) [
        | inl known ↦ rw (merge_likes, known) (merge_likes-Extends have facts m)
        | inr new ↦
            rw (merge_likes, new)
              (let (more, h) =
                  merge_likes-Extends (like_key fact.value ∷ have) facts (add_like fact m) in
                (
                  trim_space fact.value ∷ more,
                  h ∙ append_assoc m.likes (trim_space fact.value ∷ []) more,
                ))
      ]

  note-likes :
      (field dst : String) (fact : Fact) (m : Merged) → (note field dst fact m).likes ≡ m.likes
  note-likes field dst fact m = elim (Bool-cases (is_set dst fact)) [
    | inl yes_set ↦ rw (yes_set) refl
    | inr unset ↦ rw (unset) refl
  ]

  -- Merging an extraction into a card leaves its name and its text, fills each of the birthday, the
  -- city and the country only where it was empty, and adds likes only after those there were.
  pub merge_card-keeps :
      (c : Card) (f : Found)
      → let c' = (merge_card c f).0 in
        (c'.name ≡ c.name)
        × (c'.body ≡ c.body)
        × (c'.birthday ≡ (if c.birthday == "" then trim_space f.birthday.value else c.birthday))
        × (c'.city ≡ (if c.city == "" then trim_space f.city.value else c.city))
        × (c'.country ≡ (if c.country == "" then trim_space f.country.value else c.country))
        × (more : List String) × (c'.likes ≡ c.likes ++ more)
  unfolding merge_card
  merge_card-keeps c f =
      let start : Merged = record { likes = c.likes; changed = []; prov = [] } in
      let one = note "birthday" c.birthday f.birthday start in
      let two = note "city" c.city f.city one in
      let three = note "country" c.country f.country two in
      let (more, h) = merge_likes-Extends (map like_key c.likes) f.likes three in
      let same : three.likes ≡ c.likes =
        note-likes "country" c.country f.country two
        ∙ note-likes "city" c.city f.city one
        ∙ note-likes "birthday" c.birthday f.birthday start in
      (
        refl,
        refl,
        fill_lem c.birthday f.birthday,
        fill_lem c.city f.city,
        fill_lem c.country f.country,
        more,
        h ∙ ap (λ l. l ++ more) same,
      )
