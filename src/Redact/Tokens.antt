-- ===== src/Redact/Tokens.antt =====
-- internal/redact/redact.go: which texts have a token, and that it stays.
use beeper_tui.Base.{
  ◌≡◌, ℕ, Bool, Bool-cases, Option-cases, inl, inr, true, ◌||◌, String, eq_iff, eq_refl, List, [],
  ◌∷◌, ◌++◌, some, if◌then◌else◌, ltb, leb, lookup, lookup-insert, is_some, trim_space, byte_len,
  fields, All, All-append, arith,
}
use beeper_tui.Platform.{Platform}
use beeper_tui.Identity.Person.{Person}
use beeper_tui.Redact.{
  Vault, key_of, register, register_all, register_parts, register_name, register_names, handles,
  mint, known_token, token_for, register_person, register_people, update_vault, possessive,
}

-- Every text that has a token in the first vault has the same one in the second.
abbrev pub Keeps : Vault → Vault → Type 0
Keeps v w =
    (key token : String) → lookup key v.by_value ≡ some token → lookup key w.by_value ≡ some token

module _ ⦃platform : Platform⦄ where
  register-Keeps : (value token : String) (v : Vault) → Keeps v (register value token v)
  unfolding register
  register-Keeps value token v key t h =
      let k = key_of value in
      elim (Bool-cases (ltb (byte_len (trim_space value)) 3 || is_some (lookup k v.by_value))) [
        | inl skip ↦ rw (register, skip) h
        | inr fresh ↦
            rw (register, fresh)
              (ground (arith, lookup-insert k key token v.by_value, eq_iff k key))
      ]

  register_all-Keeps :
      (values : List String) (token : String) (v : Vault) → Keeps v (register_all values token v)
  register_all-Keeps [] token v key t h = h
  register_all-Keeps (value ∷ values) token v key t h =
      register_all-Keeps values token _ key t (register-Keeps value token v key t h)

  -- One part of a name and its possessive.
  part-Keeps :
      (part token : String) (v : Vault)
      → Keeps v (
          if leb 3 (byte_len part)
          then register (possessive part) (possessive token) (register part token v)
          else v)
  part-Keeps part token v key t h = elim (Bool-cases (leb 3 (byte_len part))) [
    | inl long ↦ rw long (
        register-Keeps (possessive part) (possessive token) _ key t
          (register-Keeps part token v key t h))
    | inr short ↦ rw short h
  ]

  register_parts-Keeps :
      (parts : List String) (token : String) (v : Vault) → Keeps v (register_parts parts token v)
  register_parts-Keeps [] token v key t h = h
  register_parts-Keeps (part ∷ parts) token v key t h =
      register_parts-Keeps parts token _ key t (part-Keeps part token v key t h)

  register_names-Keeps :
      (names : List String) (token : String) (v : Vault) → Keeps v (register_names names token v)
  register_names-Keeps [] token v key t h = h
  register_names-Keeps (name ∷ names) token v key t h = register_names-Keeps names token _ key t (
      register_parts-Keeps (fields name) token _ key t (
        register-Keeps (possessive name) (possessive token) _ key t
          (register-Keeps name token v key t h)))

  -- A text is too short for a token, or it has one.
  abbrev pub is_covered : Vault → String → Bool
  is_covered v value =
      ltb (byte_len (trim_space value)) 3 || is_some (lookup (key_of value) v.by_value)

  pub IsCovered : Vault → String → Type 0
  IsCovered v value = is_covered v value ≡ true

  IsCovered-later :
      (v w : Vault) (value : String) → Keeps v w → IsCovered v value → IsCovered w value
  unfolding IsCovered
  IsCovered-later v w value k h = elim (Option-cases (lookup (key_of value) v.by_value)) [
    | inl missing ↦ ground arith
    | inr (token, found) ↦ let later = k (key_of value) token found in ground arith
  ]

  register-IsCovered : (value token : String) (v : Vault) → IsCovered (register value token v) value
  unfolding register IsCovered
  register-IsCovered value token v =
      let k = key_of value in
      elim (Bool-cases (ltb (byte_len (trim_space value)) 3 || is_some (lookup k v.by_value))) [
        | inl skip ↦ rw (register, skip) skip
        | inr fresh ↦
            rw (register, fresh) (ground (arith, lookup-insert k k token v.by_value, eq_refl k))
      ]

  All-later :
      (v w : Vault) (values : List String)
      → Keeps v w
      → All (IsCovered v) values
      → All (IsCovered w) values
  All-later v w [] k h = tt
  All-later v w (value ∷ values) k (c, h) =
      (IsCovered-later v w value k c, All-later v w values k h)

  register_all-IsCovered :
      (values : List String) (token : String) (v : Vault)
      → All (IsCovered (register_all values token v)) values
  register_all-IsCovered [] token v = tt
  register_all-IsCovered (value ∷ values) token v =
      let v' = register value token v in
      (
        IsCovered-later v' (register_all values token v') value (register_all-Keeps values token v')
            (register-IsCovered value token v),
        register_all-IsCovered values token v',
      )

  name-Keeps :
      (name token : String) (v : Vault) → Keeps (register name token v) (register_name name token v)
  name-Keeps name token v key t h =
      register_parts-Keeps (fields name) token _ key t
        (register-Keeps (possessive name) (possessive token) _ key t h)

  register_names-IsCovered :
      (names : List String) (token : String) (v : Vault)
      → All (IsCovered (register_names names token v)) names
  register_names-IsCovered [] token v = tt
  register_names-IsCovered (name ∷ names) token v =
      let v' = register_name name token v in
      let later = register_names-Keeps names token v' in
      let here =
        IsCovered-later (register name token v) v' name (name-Keeps name token v)
          (register-IsCovered name token v) in
      (
        IsCovered-later v' (register_names names token v') name later here,
        register_names-IsCovered names token v',
      )

  -- The texts that stand for a person: the name, the other names, and the handles.
  abbrev pub values_of : Person → List String
  values_of p = (p.name ∷ p.alt_names) ++ handles p

module _ ⦃platform : Platform⦄ (draw : Vault → ℕ) where
  token_for-Keeps : (p : Person) (v : Vault) → Keeps v (token_for draw p v).1
  unfolding token_for mint
  token_for-Keeps p v key t h = elim (Option-cases (known_token (values_of p) v)) [
    | inl missing ↦ rw (token_for, missing) h
    | inr (token, found) ↦ rw (token_for, found) h
  ]

  register_person-Keeps : (p : Person) (v : Vault) → Keeps v (register_person draw p v)
  unfolding register_person
  register_person-Keeps p v key t h =
      register_all-Keeps (handles p) _ _ key t
        (register_names-Keeps (p.name ∷ p.alt_names) _ _ key t (token_for-Keeps p v key t h))

  register_people-Keeps : (ps : List Person) (v : Vault) → Keeps v (register_people draw ps v)
  unfolding register_people
  register_people-Keeps [] v key t h = h
  register_people-Keeps (p ∷ ps) v key t h =
      register_people-Keeps ps _ key t (register_person-Keeps p v key t h)

  -- An update of the vault changes no token: a text that had one has the same one afterwards, whoever
  -- is registered.
  pub update_vault-Keeps :
      (ps : List Person) (v : Vault) (key token : String)
      → lookup key v.by_value ≡ some token
      → lookup key (update_vault draw ps v).by_value ≡ some token
  unfolding update_vault
  update_vault-Keeps ps v key token h = register_people-Keeps ps v key token h

  register_person-IsCovered :
      (p : Person) (v : Vault) → All (IsCovered (register_person draw p v)) (values_of p)
  unfolding register_person
  register_person-IsCovered p v =
      let (token, v') = token_for draw p v in
      let named = register_names (p.name ∷ p.alt_names) token v' in
      All-append (IsCovered _) (p.name ∷ p.alt_names) (handles p)
        (All-later named (register_all (handles p) token named) (p.name ∷ p.alt_names)
          (register_all-Keeps (handles p) token named)
          (register_names-IsCovered (p.name ∷ p.alt_names) token v'))
        (register_all-IsCovered (handles p) token named)

  register_people-IsCovered :
      (ps : List Person) (v : Vault)
      → All (λ p. All (IsCovered (register_people draw ps v)) (values_of p)) ps
  unfolding register_people
  register_people-IsCovered [] v = tt
  register_people-IsCovered (p ∷ ps) v =
      let v' = register_person draw p v in
      (
        All-later v' (register_people draw ps v') (values_of p) (register_people-Keeps ps v')
            (register_person-IsCovered p v),
        register_people-IsCovered ps v',
      )

  -- After an update every name and handle of every person in it has a token, but for texts of less
  -- than three bytes.
  pub update_vault-IsCovered :
      (ps : List Person) (v : Vault)
      → All (λ p. All (IsCovered (update_vault draw ps v)) (values_of p)) ps
  unfolding update_vault IsCovered
  update_vault-IsCovered ps v = register_people-IsCovered ps v
