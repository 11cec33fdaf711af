-- ===== src/Identity/Builder/Forest.antt =====
-- internal/identity/identity.go: linking a person that was not merged keeps the links a forest.
use beeper_tui.Base.{
  ◌++◌, ◌≡◌, refl, sym, ap, ◌∙◌, ℕ, zero, suc, ◌+◌, Bool, false, ◌||◌, List, [], ◌∷◌, none, some,
  inl, inr, Option-cases, arith, eqb, get_elem?, modify, is_some, if◌then◌else◌,
}
use beeper_tui.Identity.Person.{Person}
use beeper_tui.Identity.Builder.{Entry, parent_of, on_person}
use beeper_tui.Identity.Builder.Links.{
  IsRoot, IsForest, SameLinks, AddsLink, links, AddsLink-IsForest, SameLinks-IsForest,
}

abbrev pub set_parent : ℕ → Entry → Entry
set_parent d e = record e { parent = some d }

eqb-suc : (a b : ℕ) → eqb a b ≡ eqb (suc a) (suc b)
eqb-suc a b = ground arith

pub or_both : (a b : Bool) → a ≡ false → b ≡ false → (a || b) ≡ false
or_both a b h g = ground arith

pub eqb_swap : (a b : ℕ) → eqb a b ≡ false → eqb b a ≡ false
eqb_swap a b h = ground arith

pub parent_of-on_person :
    (es : List Entry) (d : ℕ) (f : Person → Person) (i : ℕ)
    → parent_of (modify es d (on_person f)) i ≡ parent_of es i
parent_of-on_person [] d f i = refl
parent_of-on_person (e ∷ es) zero f zero = refl
parent_of-on_person (e ∷ es) zero f (suc i) = refl
parent_of-on_person (e ∷ es) (suc d) f zero = refl
parent_of-on_person (e ∷ es) (suc d) f (suc i) = parent_of-on_person es d f i

links-on_person :
    (es : List Entry) (d : ℕ) (f : Person → Person) → links (modify es d (on_person f)) ≡ links es
links-on_person [] d f = refl
links-on_person (e ∷ es) zero f = refl
links-on_person (e ∷ es) (suc d) f =
    ap (λ n. (if is_some e.parent then 1 else 0) + n) (links-on_person es d f)

pub on_person-IsForest :
    (es : List Entry) (d : ℕ) (f : Person → Person)
    → IsForest es
    → IsForest (modify es d (on_person f))
unfolding SameLinks
on_person-IsForest es d f h =
    SameLinks-IsForest es (modify es d (on_person f)) (λ i. sym (parent_of-on_person es d f i))
      (links-on_person es d f) h

pub modify_out :
    {A : Type 0} → (es : List A) (p : ℕ) (f : A → A) → get_elem? es p ≡ none → modify es p f ≡ es
modify_out [] p f h = refl
modify_out (e ∷ es) zero f h = ground arith
modify_out (e ∷ es) (suc p) f h = ap (λ r. e ∷ r) (modify_out es p f h)

pub AddsLink-set_parent :
    (es : List Entry) (p d : ℕ) (e : Entry)
    → get_elem? es p ≡ some e
    → AddsLink p d es (modify es p (set_parent d))
AddsLink-set_parent [] p d e h i = ground arith
AddsLink-set_parent (x ∷ es) zero d e h zero = refl
AddsLink-set_parent (x ∷ es) zero d e h (suc i) = ground arith
AddsLink-set_parent (x ∷ es) (suc p) d e h zero = ground arith
AddsLink-set_parent (x ∷ es) (suc p) d e h (suc i) =
    AddsLink-set_parent es p d e h i ∙ ap (λ t. if t then some d else parent_of es i) (eqb-suc i p)

links-set_parent :
    (es : List Entry) (p d : ℕ) (e : Entry)
    → get_elem? es p ≡ some e
    → parent_of es p ≡ none
    → links (modify es p (set_parent d)) ≡ suc (links es)
links-set_parent [] p d e h r = ground arith
links-set_parent (x ∷ es) zero d e h r = rw (r) omega arith
links-set_parent (x ∷ es) (suc p) d e h r = rw (links-set_parent es p d e h r) omega arith

pub set_parent-IsForest :
    (es : List Entry) (p d : ℕ)
    → IsRoot es p
    → IsRoot es d
    → eqb d p ≡ false
    → IsForest es
    → IsForest (modify es p (set_parent d))
unfolding IsRoot
set_parent-IsForest es p d rp rd ne f = elim (Option-cases (get_elem? es p)) [
  | inl out ↦ rw (modify_out es p (set_parent d) out) f
  | inr (e, here) ↦
      AddsLink-IsForest es (modify es p (set_parent d)) p d (AddsLink-set_parent es p d e here)
        (links-set_parent es p d e here rp) rd ne f
]

parent_of-append_root :
    (es : List Entry) (q : Person) (i : ℕ)
    → parent_of (es ++ record { person = q; parent = none } ∷ []) i ≡ parent_of es i
parent_of-append_root [] q zero = refl
parent_of-append_root [] q (suc i) = refl
parent_of-append_root (e ∷ es) q zero = refl
parent_of-append_root (e ∷ es) q (suc i) = parent_of-append_root es q i

links-append_root :
    (es : List Entry) (q : Person)
    → links (es ++ record { person = q; parent = none } ∷ []) ≡ links es
links-append_root [] q = refl
links-append_root (e ∷ es) q =
    ap (λ n. (if is_some e.parent then 1 else 0) + n) (links-append_root es q)

pub append_root-IsForest :
    (es : List Entry) (q : Person)
    → IsForest es
    → IsForest (es ++ record { person = q; parent = none } ∷ [])
unfolding SameLinks
append_root-IsForest es q =
    SameLinks-IsForest es _ (λ i. sym (parent_of-append_root es q i)) (links-append_root es q)
