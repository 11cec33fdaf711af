-- ===== src/Identity/Search.antt =====
-- internal/identity/identity.go: searching the people of the index, and any list of strings.
pub mod Tiers
use Prim.Native.Char.{code}
use beeper_tui.Base.{
  ℕ, suc, Bool, true, false, not, ◌&&◌, ◌||◌, String, ◌==◌, List, [], ◌∷◌, ◌++◌, map, keep, any,
  take, is_space, if◌then◌else◌, ltb, eqb, has_prefix, contains, fields, join, texts, sort_by,
}
use beeper_tui.Platform.{Platform}
use beeper_tui.Identity.Person.{Person, normalize}

-- The tiers, best first.
abbrev pub tier_exact : ℕ
tier_exact = 0

abbrev pub tier_prefix : ℕ
tier_prefix = 1

abbrev pub tier_subsequence : ℕ
tier_subsequence = 2

abbrev pub tier_none : ℕ
tier_none = 3

-- `matchFields`.
unfoldable pub match_fields : Person → List String
match_fields p = p.name ∷ p.alt_names ++ p.usernames ++ p.phones ++ p.emails

abbrev is_empty {ℓ} : {A : Type ℓ} → List A → Bool
is_empty [] = true
is_empty (x ∷ xs) = false

-- `tokenPrefixes`.
unfoldable pub token_prefixes : String → String → Bool
token_prefixes q f =
    not (is_empty (fields q))
    && not (any (λ word. not (any (λ field. has_prefix word field) (fields f))) (fields q))

module _ ⦃platform : Platform⦄ where
  -- `matchField`: the tier and the distance.
  unfoldable pub match_field : String → String → ℕ × ℕ
  match_field q f =
      if f == ""
      then (tier_none, 0)
      else if f == q
      then (tier_exact, 0)
      else if has_prefix q f || token_prefixes q f
      then (tier_prefix, platform.edit_distance q f)
      else if platform.is_subsequence q f
      then (tier_subsequence, platform.edit_distance q f)
      else (tier_none, 0)

  -- Lower in the order of tiers, then of distances.
  abbrev pub is_better : ℕ × ℕ → ℕ × ℕ → Bool
  is_better (t, d) (tier, dist) = ltb t tier || eqb t tier && ltb d dist

  -- The loop over the fields of one person.
  unfoldable pub best_field : String → ℕ × ℕ → List String → ℕ × ℕ
  best_field q best [] = best
  best_field q best (f ∷ fs) =
      best_field q
        (if is_better (match_field q (normalize f)) best then match_field q (normalize f) else best)
        fs

  abbrev pub score : String → Person → ℕ × ℕ
  score q p = best_field q (tier_none, 0) (match_fields p)

  -- The `less` of the hits of `Search`.
  abbrev pub person_less : (Person × (ℕ × ℕ)) → (Person × (ℕ × ℕ)) → Bool
  person_less (p, (t, d)) (p', (t', d')) =
      if not (eqb t t')
      then ltb t t'
      else if not (eqb d d')
      then ltb d d'
      else ltb p'.last_active p.last_active

  abbrev pub person_hits : String → List Person → List (Person × (ℕ × ℕ))
  person_hits q people =
      keep (λ (h : Person × (ℕ × ℕ)). ltb h.1.0 tier_none) (map (λ p. (p, score q p)) people)

  -- `Search`.
  unfoldable pub search : String → ℕ → List Person → List Person
  search query max people =
      let q = normalize query in
      if q == ""
      then []
      else take max
          (map (λ (h : Person × (ℕ × ℕ)). h.0) (sort_by person_less (person_hits q people)))

  -- `strings.Map` of `strippedWords`.
  spaced : String → String
  spaced String.[] = ""
  spaced (String.◌∷◌ c s) =
      let rest = spaced s in
      if platform.is_word_rune (code c) then String.◌∷◌ c rest else texts (" " ∷ rest ∷ [])

  -- `strippedWords`.
  unfoldable pub stripped_words : String → String
  unfolding spaced
  stripped_words s = join (fields (spaced (normalize s))) " "

  abbrev pub is_spoken : String → Person → Bool
  is_spoken query p =
      any
        (λ name.
          not (stripped_words name == "")
          && contains (texts (" " ∷ stripped_words name ∷ " " ∷ []))
              (texts (" " ∷ stripped_words query ∷ " " ∷ [])))
        (p.name ∷ p.alt_names)

  -- `Candidates`.
  unfoldable pub candidates : String → List Person → List Person
  candidates query people = keep (is_spoken query) people

  abbrev string_hits : String → ℕ → List String → List (ℕ × (ℕ × ℕ))
  string_hits q i [] = []
  string_hits q i (c ∷ cs) =
      let rest = string_hits q (suc i) cs in
      if ltb (match_field q (normalize c)).0 tier_none
      then (i, match_field q (normalize c)) ∷ rest
      else rest

  abbrev string_less : (ℕ × (ℕ × ℕ)) → (ℕ × (ℕ × ℕ)) → Bool
  string_less (i, (t, d)) (i', (t', d')) = if not (eqb t t') then ltb t t' else ltb d d'

  -- `MatchStrings`.
  unfoldable pub match_strings : String → List String → List ℕ
  match_strings query cs =
      let q = normalize query in
      if q == ""
      then []
      else map (λ (h : ℕ × (ℕ × ℕ)). h.0) (sort_by string_less (string_hits q 0 cs))
