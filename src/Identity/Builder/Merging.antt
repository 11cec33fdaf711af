-- ===== src/Identity/Builder/Merging.antt =====
-- internal/identity/identity.go: `add` merges only people that were not merged before, so the links
-- stay a forest.
use beeper_tui.Base.{
  or_false_left, or_false_right, ◌≡◌, refl, ap, ◌∙◌, ℕ, false, ◌||◌, List, [], ◌∷◌, ◌++◌, Option,
  none, some, inl, inr, Option-cases, Bool-cases, eqb, any, get_elem?, modify, if◌then◌else◌,
  lookup,
}
use beeper_tui.Platform.{Platform}
use beeper_tui.Identity.Person.{Person, absorb, nobody, networks}
use beeper_tui.Identity.Policy.{allow_name_merge}
use beeper_tui.Identity.Builder.{
  Entry, Builder, Matches, Sighting, KeySet, parent_of, find, link, link_all, consider,
  consider_found, on_person, destination, person_at, contains_person, add, all_matches,
  strong_matches, is_dst, keys_of, observe, gate_name, record_keys,
}
use beeper_tui.Identity.Builder.Links.{IsRoot, IsForest, find-IsRoot}
use beeper_tui.Identity.Builder.Forest.{
  append_root-IsForest, set_parent, or_both, eqb_swap, parent_of-on_person, on_person-IsForest,
  modify_out, AddsLink-set_parent, set_parent-IsForest,
}

module _ ⦃platform : Platform⦄ where
  link-IsForest :
      (es : List Entry) (d p : ℕ)
      → IsRoot es p
      → IsRoot es d
      → eqb d p ≡ false
      → IsForest es
      → IsForest (link d p es)
  unfolding link IsRoot
  link-IsForest es d p rp rd ne f =
      let g : Person → Person = λ q. absorb q (person_at es p) in
      set_parent-IsForest (modify es d (on_person g)) p d (parent_of-on_person es d g p ∙ rp)
        (parent_of-on_person es d g d ∙ rd) ne (on_person-IsForest es d g f)

  link-IsRoot :
      (es : List Entry) (d p i : ℕ) → eqb i p ≡ false → IsRoot es i → IsRoot (link d p es) i
  unfolding link IsRoot
  link-IsRoot es d p i ne r =
      let g : Person → Person = λ q. absorb q (person_at es p) in
      let fs = modify es d (on_person g) in
      elim (Option-cases (get_elem? fs p)) [
        | inl out ↦ rw (modify_out fs p (set_parent d) out) (parent_of-on_person es d g i ∙ r)
        | inr (e, here) ↦
            AddsLink-set_parent fs p d e here i
            ∙ ap (λ t. if t then some d else parent_of fs i) ne
            ∙ parent_of-on_person es d g i
            ∙ r
      ]

  -- The people to merge into `d`: roots, each once, and not `d` itself.
  Mergeable : List Entry → ℕ → List ℕ → Type 0
  Mergeable es d [] = Unit
  Mergeable es d (p ∷ ps) =
      IsRoot es p × (eqb d p ≡ false) × (any (λ q. eqb q p) ps ≡ false) × Mergeable es d ps

  Mergeable-link :
      (es : List Entry) (d p : ℕ) (ps : List ℕ)
      → any (λ q. eqb q p) ps ≡ false
      → Mergeable es d ps
      → Mergeable (link d p es) d ps
  unfolding Mergeable
  Mergeable-link es d p [] h m = tt
  Mergeable-link es d p (q ∷ ps) h (r, ne, once, m) = (
    link-IsRoot es d p q (or_false_left (eqb q p) _ h) r,
    ne,
    once,
    Mergeable-link es d p ps (or_false_right (eqb q p) _ h) m,
  )

  link_all-IsForest :
      (ps : List ℕ) (es : List Entry) (d : ℕ)
      → Mergeable es d ps
      → IsRoot es d
      → IsForest es
      → IsForest (link_all d ps es)
  unfolding Mergeable link_all
  link_all-IsForest [] es d m r f = f
  link_all-IsForest (p ∷ ps) es d (rp, ne, once, m) r f =
      link_all-IsForest ps (link d p es) d (Mergeable-link es d p ps once m)
        (link-IsRoot es d p d ne r) (link-IsForest es d p rp r ne f)

  -- `consider` gathers only roots, each once.
  IsMatches : List Entry → Matches → Type 0
  IsMatches es ms = elim ms.dst [
    | none ↦ ms.extra ≡ []
    | some d ↦ IsRoot es d × Mergeable es d ms.extra
  ]

  any-append_one :
      (q : ℕ) (ps : List ℕ) (p : ℕ)
      → any (λ x. eqb x q) ps ≡ false
      → eqb p q ≡ false
      → any (λ x. eqb x q) (ps ++ p ∷ []) ≡ false
  any-append_one q [] p h ne = or_both _ _ ne refl
  any-append_one q (x ∷ ps) p h ne =
      or_both _ _ (or_false_left (eqb x q) _ h)
        (any-append_one q ps p (or_false_right (eqb x q) _ h) ne)

  Mergeable-append :
      (es : List Entry) (d : ℕ) (ps : List ℕ) (p : ℕ)
      → Mergeable es d ps
      → IsRoot es p
      → eqb d p ≡ false
      → contains_person ps p ≡ false
      → Mergeable es d (ps ++ p ∷ [])
  unfolding Mergeable
  Mergeable-append es d [] p m r ne h = (r, ne, refl, tt)
  Mergeable-append es d (q ∷ ps) p (rq, neq, once, m) r ne h = (
    rq,
    neq,
    any-append_one q ps p once (eqb_swap q p (or_false_left (eqb q p) _ h)),
    Mergeable-append es d ps p m r ne (or_false_right (eqb q p) _ h),
  )

  consider_found-IsMatches :
      (es : List Entry) (p : ℕ) (dst : Option ℕ) (extra : List ℕ)
      → IsRoot es p
      → IsMatches es (record { dst = dst; extra = extra })
      → IsMatches es (consider_found p (record { dst = dst; extra = extra }))
  unfolding IsMatches Mergeable
  consider_found-IsMatches es p none extra r h = (r, rw (h) tt)
  consider_found-IsMatches es p (some d) extra r h =
      elim (Bool-cases (eqb p d || contains_person extra p)) [
        | inl known ↦ rw (known) h
        | inr new ↦ rw (new) (
          h.0,
          Mergeable-append es d extra p (h.1) r (eqb_swap p d (or_false_left (eqb p d) _ new))
              (or_false_right (eqb p d) _ new),
        )
      ]

  consider-IsMatches :
      (es : List Entry) (i : Option ℕ) (ms : Matches)
      → IsForest es
      → IsMatches es ms
      → IsMatches es (consider es i ms)
  unfolding consider
  consider-IsMatches es none ms f h = h
  consider-IsMatches es (some i) ms f h =
      consider_found-IsMatches es (find es i) ms.dst ms.extra (find-IsRoot es i f) h

  strong_matches-IsMatches :
      (k : KeySet) (b : Builder) → IsForest b.entries → IsMatches b.entries (strong_matches k b)
  unfolding strong_matches IsMatches
  strong_matches-IsMatches k b f = consider-IsMatches b.entries _ _ f (
      consider-IsMatches b.entries _ _ f (
        consider-IsMatches b.entries _ _ f
          (consider-IsMatches b.entries _ (record { dst = none; extra = [] }) f refl)))

  gate_name-IsMatches :
      (s : Sighting) (p : ℕ) (ms : Matches) (b : Builder)
      → IsRoot b.entries p
      → IsMatches b.entries ms
      → IsMatches b.entries ((gate_name s p ms b).0)
  gate_name-IsMatches s p ms b r h =
      elim (Bool-cases (is_dst ms.dst p || contains_person ms.extra p)) [
        | inl known ↦ rw (known) h
        | inr new ↦
            rw (new)
              (elim (Bool-cases (
                (allow_name_merge b.policy s.name
                  (networks (person_at b.entries p) ++ s.acct.network ∷ [])).0)) [
                    | inl allowed ↦
                        rw (allowed) (consider_found-IsMatches b.entries p ms.dst ms.extra r h)
                    | inr denied ↦ rw (denied) h
                  ])
      ]

  gate_name-entries :
      (s : Sighting) (p : ℕ) (ms : Matches) (b : Builder)
      → ((gate_name s p ms b).1).entries ≡ b.entries
  gate_name-entries s p ms b = elim (Bool-cases (is_dst ms.dst p || contains_person ms.extra p)) [
    | inl known ↦ rw (known) refl
    | inr new ↦ rw (new) refl
  ]

  all_matches-IsMatches :
      (k : KeySet) (s : Sighting) (b : Builder)
      → IsForest b.entries
      → IsMatches b.entries ((all_matches k s b).0)
  unfolding all_matches
  all_matches-IsMatches k s b f = elim (Option-cases (lookup k.name b.by_name)) [
    | inl missing ↦ rw (all_matches, missing) (strong_matches-IsMatches k b f)
    | inr (i, found) ↦
        rw (all_matches, found)
          (gate_name-IsMatches s (find b.entries i) (strong_matches k b) b
            (find-IsRoot b.entries i f) (strong_matches-IsMatches k b f))
  ]

  all_matches-entries :
      (k : KeySet) (s : Sighting) (b : Builder) → ((all_matches k s b).1).entries ≡ b.entries
  unfolding all_matches
  all_matches-entries k s b = elim (Option-cases (lookup k.name b.by_name)) [
    | inl missing ↦ rw (all_matches, missing) refl
    | inr (i, found) ↦
        rw (all_matches, found) (gate_name-entries s (find b.entries i) (strong_matches k b) b)
  ]

  -- Whatever the matches are, making the destination and merging the others keeps the forest.
  merged-IsForest :
      (s : Sighting) (es : List Entry) (dst : Option ℕ) (extra : List ℕ)
      → IsMatches es (record { dst = dst; extra = extra })
      → IsForest es
      → IsForest (link_all ((destination s dst es).0) extra ((destination s dst es).1))
  unfolding IsMatches destination link_all
  merged-IsForest s es none extra h f =
      rw (h) (append_root-IsForest es (record nobody { name = s.name }) f)
  merged-IsForest s es (some d) extra h f = link_all-IsForest extra es d (h.1) (h.0) f

  -- Adding an observation keeps the links a forest.
  pub add-IsForest : (s : Sighting) (b : Builder) → IsForest b.entries → IsForest (add s b).entries
  unfolding add record_keys
  add-IsForest s b f =
      let ms = (all_matches (keys_of s) s b).0 in
      let es = ((all_matches (keys_of s) s b).1).entries in
      let same = all_matches-entries (keys_of s) s b in
      on_person-IsForest _ ((destination s ms.dst es).0) (observe s) (
        merged-IsForest s es ms.dst ms.extra (rw (same) (all_matches-IsMatches (keys_of s) s b f))
          (rw (same) f))
