-- ===== src/Identity/Search/Tiers.antt =====
-- internal/identity/identity.go: what a search returns.
use beeper_tui.Base.{
  length-take, All-take, ◌≡◌, sym, ap, ◌∙◌, ℕ, ◌≤◌, ◌||◌, ◌==◌, String, List, [], ◌∷◌, Bool, true,
  false, map, any, length, ltb, All, All-sort_by, if◌then◌else◌, Bool-cases, inl, inr, arith,
}
use beeper_tui.Platform.{Platform}
use beeper_tui.Identity.Person.{Person, normalize}
use beeper_tui.Identity.Search.{
  match_field, is_better, best_field, match_fields, score, person_hits, person_less, search,
  tier_none,
}

All-map :
    {A B : Type 0}
    → (P : B → Type 0) (f : A → B) (xs : List A) → All (λ x. P (f x)) xs
    → All P (map f xs)
All-map P f [] h = tt
All-map P f (x ∷ xs) h = (h.0, All-map P f xs h.1)

module _ ⦃platform : Platform⦄ where
  -- Whether a field of the person matches the normalized query.
  abbrev pub matches : String → Person → Bool
  matches q p = any (λ f. ltb (match_field q (normalize f)).0 tier_none) (match_fields p)

  either : (a b r : Bool) → (b || r) ≡ true → (a || (b || r)) ≡ true
  either a b r h = ground arith

  first : (a b r : Bool) → (a || r) ≡ true → (a || (b || r)) ≡ true
  first a b r h = ground arith

  -- A better field only replaces the best one.
  step_matches :
      (m best : ℕ × ℕ) (r : Bool)
      → (ltb (if is_better m best then m else best).0 tier_none || r) ≡ true
      → (ltb best.0 tier_none || (ltb m.0 tier_none || r)) ≡ true
  step_matches m best r h = elim (Bool-cases (is_better m best)) [
    | inl better ↦
        either _ _ r (ap (λ t. ltb (if t then m else best).0 tier_none || r) (sym better) ∙ h)
    | inr worse ↦
        first _ _ r (ap (λ t. ltb (if t then m else best).0 tier_none || r) (sym worse) ∙ h)
  ]

  best_field-matches :
      (q : String) (best : ℕ × ℕ) (fs : List String)
      → ltb (best_field q best fs).0 tier_none ≡ true
      → (ltb best.0 tier_none || any (λ f. ltb (match_field q (normalize f)).0 tier_none) fs) ≡ true
  unfolding best_field
  best_field-matches q best [] h = ap (λ t. t || false) h
  best_field-matches q best (f ∷ fs) h =
      let m = match_field q (normalize f) in
      step_matches m best _ (best_field-matches q (if is_better m best then m else best) fs h)

  score-matches :
      (q : String) (p : Person) → ltb (score q p).0 tier_none ≡ true → matches q p ≡ true
  score-matches q p h = best_field-matches q (tier_none, 0) (match_fields p) h

  person_hits-match :
      (q : String) (ps : List Person)
      → All (λ (h : Person × (ℕ × ℕ)). matches q h.0 ≡ true) (person_hits q ps)
  person_hits-match q [] = tt
  person_hits-match q (p ∷ ps) = elim (Bool-cases (ltb (score q p).0 tier_none)) [
    | inl hit ↦ rw (hit) (score-matches q p hit, person_hits-match q ps)
    | inr miss ↦ rw (miss) (person_hits-match q ps)
  ]

  -- A search returns at most the people it was asked for, and each of them has a field that matches
  -- the query.
  pub search-matches :
      (query : String) (max : ℕ) (people : List Person)
      → (length (search query max people) ≤ max)
        × All (λ p. matches (normalize query) p ≡ true) (search query max people)
  unfolding search
  search-matches query max people = elim (Bool-cases (normalize query == "")) [
    | inl empty ↦ rw (search, empty) (omega arith, tt)
    | inr full ↦
        rw (search, full)
          (
            length-take max _,
            All-take _ max _ (
                All-map (λ p. matches (normalize query) p ≡ true) (λ (h : Person × (ℕ × ℕ)). h.0) _
                  (All-sort_by person_less _ _ (person_hits-match (normalize query) people))),
          )
  ]
