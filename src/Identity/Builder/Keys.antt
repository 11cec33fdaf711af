-- ===== src/Identity/Builder/Keys.antt =====
-- internal/identity/identity.go: the keys under which `add` keeps a person.
use beeper_tui.Base.{
  ◌≡◌, ℕ, refl, ◌∙◌, String, ◌==◌, ◌||◌, List, [], ◌∷◌, Bool-cases, inl, inr, Option-cases, lookup,
  eq_refl,
}
use beeper_tui.Platform.{Platform}
use beeper_tui.Identity.Person.{normalize}
use beeper_tui.Identity.Builder.{
  Builder, KeySet, Sighting, Matches, add, put, record_keys, keys_of, gate_name, all_matches, find,
  is_dst, contains_person, strong_matches,
}

put_same :
    (key k : String) (later : List String) (dst : ℕ) (m : List (String × ℕ))
    → key ≡ k
    → put key (k ∷ later) dst m ≡ m
put_same key k later dst m same =
    rw (same, eq_refl)
      elim (Bool-cases (k == "")) [ inl empty ↦ rw (empty) refl | inr full ↦ rw (full) refl ]

record_keys-by_account :
    (k : KeySet) (dst : ℕ) (b : Builder)
    → k.account ≡ k.acct_name
    → (record_keys k dst b).by_account ≡ b.by_account
unfolding record_keys
record_keys-by_account k dst b same =
    put_same k.account k.acct_name (k.phone ∷ k.email ∷ []) dst b.by_account same

module _ ⦃platform : Platform⦄ where
  gate_name-by_account :
      (s : Sighting) (p : ℕ) (ms : Matches) (b : Builder)
      → (gate_name s p ms b).1.by_account ≡ b.by_account
  gate_name-by_account s p ms b =
      elim (Bool-cases (is_dst ms.dst p || contains_person ms.extra p)) [
        | inl known ↦ rw (known) refl
        | inr new ↦ rw (new) refl
      ]

  all_matches-by_account :
      (k : KeySet) (s : Sighting) (b : Builder) → (all_matches k s b).1.by_account ≡ b.by_account
  unfolding all_matches
  all_matches-by_account k s b = elim (Option-cases (lookup k.name b.by_name)) [
    | inl missing ↦ rw (all_matches, missing) refl
    | inr (i, found) ↦
        rw (all_matches, found) (gate_name-by_account s (find b.entries i) (strong_matches k b) b)
  ]

  one_key :
      (s : Sighting)
      → s.acct.user_id ≡ normalize s.name
      → (keys_of s).account ≡ (keys_of s).acct_name
  unfolding keys_of
  one_key s same = rw (same) refl

  -- An observation whose user ID is also its normalized name does not write the map of the
  -- accounts: its two keys are one, and the literal keeps the other map for it.
  pub add_keeps_accounts :
      (s : Sighting) (b : Builder)
      → s.acct.user_id ≡ normalize s.name
      → (add s b).by_account ≡ b.by_account
  unfolding add
  add_keeps_accounts s b same =
      record_keys-by_account (keys_of s) _ _ (one_key s same)
      ∙ all_matches-by_account (keys_of s) s b
