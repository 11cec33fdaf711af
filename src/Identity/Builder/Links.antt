-- ===== src/Identity/Builder/Links.antt =====
-- internal/identity/identity.go: the merge links form a forest, so the loop of `find` ends at a person
-- that was not merged into another.
use beeper_tui.Base.{
  ◌≡◌, refl, sym, ap, ◌∙◌, ℕ, zero, suc, ◌+◌, ◌≤◌, true, false, inl, inr, List, [], ◌∷◌, none, some,
  Option-cases, Bool-cases, arith, eqb, length, is_some, if◌then◌else◌,
}
use beeper_tui.Identity.Builder.{Entry, parent_of, follow, find}

unfoldable pub IsRoot : List Entry → ℕ → Type 0
IsRoot entries i = parent_of entries i ≡ none

-- How many people were merged into another.
abbrev pub links : List Entry → ℕ
links [] = 0
links (e ∷ es) = (if is_some e.parent then 1 else 0) + links es

links-le_length : (es : List Entry) → links es ≤ length es
links-le_length [] = omega arith
links-le_length (e ∷ es) = ground (arith, links-le_length es)

-- Two lists with the same links.
unfoldable pub SameLinks : List Entry → List Entry → Type 0
SameLinks es fs = (i : ℕ) → parent_of es i ≡ parent_of fs i

follow-SameLinks :
    (es fs : List Entry) (fuel i : ℕ) → SameLinks es fs → follow es fuel i ≡ follow fs fuel i
unfolding follow SameLinks
follow-SameLinks es fs zero i h = refl
follow-SameLinks es fs (suc fuel) i h = elim (Option-cases (parent_of fs i)) [
  | inl root ↦ rw (follow, h i, root) refl
  | inr (j, next) ↦ rw (follow, h i, next) (follow-SameLinks es fs fuel j h)
]

-- From a root the loop does not move.
follow_root : (es : List Entry) (fuel i : ℕ) → IsRoot es i → follow es fuel i ≡ i
unfolding follow IsRoot
follow_root es zero i h = refl
follow_root es (suc fuel) i h = rw (follow, h) refl

-- More rounds than are needed change nothing.
follow_more :
    (es : List Entry) (fuel n i : ℕ)
    → fuel ≤ n
    → IsRoot es (follow es fuel i)
    → follow es n i ≡ follow es fuel i
unfolding follow IsRoot
follow_more es zero n i le h = follow_root es n i h
follow_more es (suc fuel) zero i le h = absurd (omega arith)
follow_more es (suc fuel) (suc n) i le h = elim (Option-cases (parent_of es i)) [
  | inl root ↦ rw (follow, root) refl
  | inr (j, next) ↦
      let h' : IsRoot es (follow es fuel j) =
        ap (λ o. parent_of es (elim o [ none ↦ i | some k ↦ follow es fuel k ])) (sym next) ∙ h in
      rw (follow, next) (follow_more es fuel n j (omega arith) h')
]

-- Every person leads to a root in as many steps as there are links.
unfoldable pub IsForest : List Entry → Type 0
IsForest es = (i : ℕ) → IsRoot es (follow es (links es) i)

-- In a forest `find` ends at a root.
pub find-IsRoot : (es : List Entry) (i : ℕ) → IsForest es → IsRoot es (find es i)
unfolding find IsForest IsRoot
find-IsRoot es i f =
    ap (parent_of es) (follow_more es (links es) (length es) i (links-le_length es) (f i)) ∙ f i

-- The links of `fs` are those of `es` and one more, from `p` to `d`.
abbrev pub AddsLink : ℕ → ℕ → List Entry → List Entry → Type 0
AddsLink p d es fs = (i : ℕ) → parent_of fs i ≡ (if eqb i p then some d else parent_of es i)

follow_next :
    (es : List Entry) (n i j : ℕ) → parent_of es i ≡ some j → follow es (suc n) i ≡ follow es n j
unfolding follow
follow_next es n i j h = rw (follow, h) refl

-- A link to a root is followed to that root.
follow_to :
    (fs : List Entry) (d n i : ℕ)
    → parent_of fs i ≡ some d
    → IsRoot fs d
    → IsRoot fs (follow fs (suc n) i)
unfolding IsRoot
follow_to fs d n i h r = rw (follow_next fs n i d h, follow_root fs n d r) r

stays : (fs : List Entry) (n i : ℕ) → IsRoot fs i → IsRoot fs (follow fs n i)
unfolding IsRoot
stays fs n i r = rw (follow_root fs n i r) r

AddsLink-here :
    (es fs : List Entry) (p d i : ℕ) → AddsLink p d es fs → eqb i p ≡ true → parent_of fs i ≡ some d
AddsLink-here es fs p d i a here = a i ∙ ap (λ t. if t then some d else parent_of es i) here

AddsLink-other :
    (es fs : List Entry) (p d i : ℕ)
    → AddsLink p d es fs
    → eqb i p ≡ false
    → parent_of fs i ≡ parent_of es i
AddsLink-other es fs p d i a other = a i ∙ ap (λ t. if t then some d else parent_of es i) other

-- With one more link, one more step is enough.
follow_linked :
    (es fs : List Entry) (p d n i : ℕ)
    → AddsLink p d es fs
    → IsRoot es d
    → eqb d p ≡ false
    → IsRoot es (follow es n i)
    → IsRoot fs (follow fs (suc n) i)
unfolding follow IsRoot
follow_linked es fs p d zero i a rd ne h = elim (Bool-cases (eqb i p)) [
  | inl here ↦
      follow_to fs d 0 i (AddsLink-here es fs p d i a here) (AddsLink-other es fs p d d a ne ∙ rd)
  | inr other ↦ stays fs 1 i (AddsLink-other es fs p d i a other ∙ h)
]
follow_linked es fs p d (suc n) i a rd ne h = elim (Bool-cases (eqb i p)) [
  | inl here ↦
      follow_to fs d (suc n) i (AddsLink-here es fs p d i a here)
        (AddsLink-other es fs p d d a ne ∙ rd)
  | inr other ↦ elim (Option-cases (parent_of es i)) [
    | inl root ↦ stays fs (suc (suc n)) i (AddsLink-other es fs p d i a other ∙ root)
    | inr (j, next) ↦ rw (follow_next fs (suc n) i j (AddsLink-other es fs p d i a other ∙ next)) (
        follow_linked es fs p d n j a rd ne
          (ap (parent_of es) (sym (follow_next es n i j next)) ∙ h))
  ]
]

-- Merging a root into another keeps the forest.
pub AddsLink-IsForest :
    (es fs : List Entry) (p d : ℕ)
    → AddsLink p d es fs
    → links fs ≡ suc (links es)
    → IsRoot es d
    → eqb d p ≡ false
    → IsForest es
    → IsForest fs
unfolding IsForest
AddsLink-IsForest es fs p d a more rd ne f i =
    rw (more) (follow_linked es fs p d (links es) i a rd ne (f i))

pub SameLinks-IsForest :
    (es fs : List Entry) → SameLinks es fs → links fs ≡ links es → IsForest es → IsForest fs
unfolding IsForest SameLinks IsRoot
SameLinks-IsForest es fs h same f i =
    rw (same, sym (follow-SameLinks es fs (links es) i h), sym (h (follow es (links es) i))) (f i)
