-- ===== src/Cards/Filling/Again.antt =====
-- internal/person/extract.go: merging the same facts again.
use beeper_tui.Base.{
  ◌≡◌, refl, sym, ap, ◌∙◌, String, ◌==◌, List, [], ◌∷◌, ◌++◌, Bool, true, false, ◌||◌, any, map,
  trim_space, trim_space_idem, All, Bool-cases, inl, inr, arith, eq_refl,
}
use beeper_tui.Platform.{Platform}
use beeper_tui.Cards.{
  Card, Fact, Found, Merged, fill, is_set, note, like_key, add_like, merge_likes, merge_card,
}
use beeper_tui.Cards.Filling.{note-likes}

-- A field that was filled is not set again.
is_set-fill : (dst : String) (fact : Fact) → is_set (fill dst fact) fact ≡ false
unfolding fill
is_set-fill dst fact = elim (Bool-cases (is_set dst fact)) [
  | inl now ↦
      rw (fill, now)
        elim (Bool-cases (trim_space fact.value == "")) [
          | inl nothing ↦ rw (nothing) refl
          | inr value ↦ rw (value) refl
        ]
  | inr before ↦ rw (fill, before) before
]

module _ ⦃platform : Platform⦄ where
  -- The keys of `have` are keys of the likes.
  Sub : List String → List String → Type 0
  Sub have likes =
      (key : String)
      → any (λ k. k == key) have ≡ true
      → any (λ k. k == key) (map like_key likes) ≡ true

  any-map_append :
      (key : String) (likes : List String) (v : String)
      → any (λ k. k == key) (map like_key (likes ++ v ∷ []))
        ≡ (any (λ k. k == key) (map like_key likes) || like_key v == key)
  any-map_append key [] v = ground arith
  any-map_append key (l ∷ likes) v = rw (any-map_append key likes v) ground arith

  left : (a b : Bool) → a ≡ true → (a || b) ≡ true
  left a b h = ground arith

  right : (a b : Bool) → b ≡ true → (a || b) ≡ true
  right a b h = ground arith

  Sub-new :
      (have likes : List String) (value : String)
      → Sub have likes
      → Sub (like_key value ∷ have) (likes ++ trim_space value ∷ [])
  unfolding Sub
  Sub-new have likes value h key found =
      rw (any-map_append key likes (trim_space value), like_key, trim_space_idem value)
        (elim (Bool-cases (like_key value == key)) [
          | inl here ↦ rw (here) ground arith
          | inr later ↦
              left _ _ (h key (ap (λ t. t || any (λ k. k == key) have) (sym later) ∙ found))
        ])

  -- What is known stays known.
  merge_likes-Sub :
      (have : List String) (facts : List Fact) (m : Merged)
      → Sub have m.likes
      → Sub have (merge_likes have facts m).likes
  unfolding merge_likes Sub
  merge_likes-Sub have [] m h = h
  merge_likes-Sub have (fact ∷ facts) m h =
      elim (Bool-cases (trim_space fact.value == "" || any (λ k. k == like_key fact.value) have)) [
        | inl known ↦ rw (merge_likes, known) (merge_likes-Sub have facts m h)
        | inr new ↦
            rw (merge_likes, new)
              (λ key found.
                merge_likes-Sub (like_key fact.value ∷ have) facts (add_like fact m)
                  (Sub-new have m.likes fact.value h) key (right _ _ found))
      ]

  -- A fact that is empty, or whose like is there.
  IsKnown : List String → Fact → Type 0
  IsKnown have fact =
      (trim_space fact.value == "" || any (λ k. k == like_key fact.value) have) ≡ true

  IsKnown-Sub :
      (have : List String) (facts : List Fact) (m : Merged) (fact : Fact)
      → Sub have m.likes
      → IsKnown have fact
      → IsKnown (map like_key (merge_likes have facts m).likes) fact
  unfolding IsKnown Sub
  IsKnown-Sub have facts m fact h known = elim (Bool-cases (trim_space fact.value == "")) [
    | inl nothing ↦ left _ _ nothing
    | inr value ↦ right _ _ (
        merge_likes-Sub have facts m h (like_key fact.value)
          (ap (λ t. t || any (λ k. k == like_key fact.value) have) (sym value) ∙ known))
  ]

  merge_likes_known :
      (have : List String) (fact : Fact) (facts : List Fact) (m : Merged)
      → IsKnown have fact
      → merge_likes have (fact ∷ facts) m ≡ merge_likes have facts m
  unfolding merge_likes IsKnown
  merge_likes_known have fact facts m known = rw (merge_likes, known) refl

  merge_likes_new :
      (have : List String) (fact : Fact) (facts : List Fact) (m : Merged)
      → (trim_space fact.value == "" || any (λ k. k == like_key fact.value) have) ≡ false
      → merge_likes have (fact ∷ facts) m
        ≡ merge_likes (like_key fact.value ∷ have) facts (add_like fact m)
  unfolding merge_likes
  merge_likes_new have fact facts m new = rw (merge_likes, new) refl

  All-IsKnown :
      (facts : List Fact) (r r' : Merged)
      → r ≡ r'
      → All (IsKnown (map like_key r'.likes)) facts
      → All (IsKnown (map like_key r.likes)) facts
  All-IsKnown facts r r' same h = rw (same) h

  merge_likes-IsKnown :
      (have : List String) (facts : List Fact) (m : Merged)
      → Sub have m.likes
      → All (IsKnown (map like_key (merge_likes have facts m).likes)) facts
  unfolding IsKnown
  merge_likes-IsKnown have [] m h = tt
  merge_likes-IsKnown have (fact ∷ facts) m h =
      elim (Bool-cases (trim_space fact.value == "" || any (λ k. k == like_key fact.value) have)) [
        | inl known ↦
            All-IsKnown (fact ∷ facts) _ _ (merge_likes_known have fact facts m known)
              (IsKnown-Sub have facts m fact h known, merge_likes-IsKnown have facts m h)
        | inr new ↦
            let sub = Sub-new have m.likes fact.value h in
            let here = right _ _ (left _ _ (eq_refl (like_key fact.value))) in
            All-IsKnown (fact ∷ facts) _ _ (merge_likes_new have fact facts m new) (
              IsKnown-Sub (like_key fact.value ∷ have) facts (add_like fact m) fact sub here,
              merge_likes-IsKnown (like_key fact.value ∷ have) facts (add_like fact m) sub,
            )
      ]

  merge_known :
      (have : List String) (facts : List Fact) (m : Merged)
      → All (IsKnown have) facts
      → merge_likes have facts m ≡ m
  unfolding merge_likes IsKnown
  merge_known have [] m h = refl
  merge_known have (fact ∷ facts) m h = rw (merge_likes, h.0) (merge_known have facts m h.1)

  note_unset :
      (field dst : String) (fact : Fact) (m : Merged)
      → is_set dst fact ≡ false
      → note field dst fact m ≡ m
  note_unset field dst fact m h = rw (h) refl

  fill_unset : (dst : String) (fact : Fact) → is_set dst fact ≡ false → fill dst fact ≡ dst
  unfolding fill
  fill_unset dst fact h = rw (fill, h) refl

  merge_settled :
      (c : Card) (f : Found)
      → is_set c.birthday f.birthday ≡ false
      → is_set c.city f.city ≡ false
      → is_set c.country f.country ≡ false
      → All (IsKnown (map like_key c.likes)) f.likes
      → merge_card c f ≡ (c, [], [])
  unfolding merge_card
  merge_settled c f h1 h2 h3 h4 =
      let start : Merged = record { likes = c.likes; changed = []; prov = [] } in
      rw
        (
          merge_card,
          note_unset "birthday" c.birthday f.birthday start h1,
          note_unset "city" c.city f.city start h2,
          note_unset "country" c.country f.country start h3,
          merge_known (map like_key c.likes) f.likes start h4,
          fill_unset c.birthday f.birthday h1,
          fill_unset c.city f.city h2,
          fill_unset c.country f.country h3,
        )
        refl

  -- Merging the same extraction into a card a second time changes nothing and reports nothing.
  pub merge_card_again :
      (c : Card) (f : Found) → merge_card (merge_card c f).0 f ≡ ((merge_card c f).0, [], [])
  unfolding merge_card Sub
  merge_card_again c f =
      let start : Merged = record { likes = c.likes; changed = []; prov = [] } in
      let one = note "birthday" c.birthday f.birthday start in
      let two = note "city" c.city f.city one in
      let three = note "country" c.country f.country two in
      let same : three.likes ≡ c.likes =
        note-likes "country" c.country f.country two
        ∙ note-likes "city" c.city f.city one
        ∙ note-likes "birthday" c.birthday f.birthday start in
      merge_settled (merge_card c f).0 f (is_set-fill c.birthday f.birthday)
        (is_set-fill c.city f.city) (is_set-fill c.country f.country)
        (merge_likes-IsKnown (map like_key c.likes) f.likes three (λ key found. rw (same) found))
