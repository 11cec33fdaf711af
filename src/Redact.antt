-- ===== src/Redact.antt =====
-- internal/redact/redact.go: the vault of tokens, and the part of a stream that is held back. `Redact`
-- and `Rehydrate` apply regular expressions of Go's library and are not modelled. A text is its code
-- points in the vault, and its bytes in `HoldBack`, which cuts at bytes.
pub mod Tokens
pub mod Stream
use beeper_tui.Base.{
  ℕ, ◌+◌, ◌-◌, Bool, true, false, not, ◌&&◌, ◌||◌, String, ◌==◌, List, [], ◌∷◌, ◌++◌, Option, none,
  some, if◌then◌else◌, ltb, leb, eqb, lookup, insert, is_some, trim_space, byte_len, fields, length,
  take, drop,
}
use Prim.Native.Char.{code}
use Prim.Native.String.{◌++◌ as concat}
use beeper_tui.Platform.{Platform}
use beeper_tui.Identity.Person.{Person}

pub record Vault : Type 0 where
  pub by_value : List (String × String)
  pub by_token : List (String × String)
  pub replacer : List (String × String)

-- `strings.TrimSuffix(tok, "'s")`.
unfoldable pub trim_possessive : String → String
trim_possessive String.[] = ""
trim_possessive (String.◌∷◌ c s) =
    let rest = trim_possessive s in if String.◌∷◌ c s == "'s" then "" else String.◌∷◌ c rest

-- `sortReplacer`: the longest value first.
unfoldable pub insert_longest : String × String → List (String × String) → List (String × String)
insert_longest r [] = r ∷ []
insert_longest r (x ∷ xs) =
    let rest = insert_longest r xs in
    if ltb (byte_len r.0) (byte_len x.0) then x ∷ rest else r ∷ x ∷ xs

unfoldable pub sort_longest : List (String × String) → List (String × String)
sort_longest [] = []
sort_longest (r ∷ rs) = insert_longest r (sort_longest rs)

abbrev pub sort_replacer : Vault → Vault
sort_replacer v = record v { replacer = sort_longest v.replacer }

module _ ⦃platform : Platform⦄ where
  -- `strings.ToLower(strings.TrimSpace(value))`.
  abbrev pub key_of : String → String
  key_of value = platform.lower (trim_space value)

  -- `register`.
  unfoldable pub register : String → String → Vault → Vault
  register value token v =
      if ltb (byte_len (trim_space value)) 3 || is_some (lookup (key_of value) v.by_value)
      then v
      else record v {
        by_value = insert (key_of value) token v.by_value;
        replacer = v.replacer ++ (trim_space value, token) ∷ [];
      }

  abbrev pub register_all : List String → String → Vault → Vault
  register_all [] token v = v
  register_all (value ∷ values) token v = register_all values token (register value token v)

  abbrev pub possessive : String → String
  possessive s = concat s "'s"

  -- The words of a name that are long enough, each with its possessive.
  abbrev pub register_parts : List String → String → Vault → Vault
  register_parts [] token v = v
  register_parts (part ∷ parts) token v = register_parts parts token (
      if leb 3 (byte_len part)
      then register (possessive part) (possessive token) (register part token v)
      else v)

  abbrev pub register_name : String → String → Vault → Vault
  register_name name token v =
      register_parts (fields name) token
        (register (possessive name) (possessive token) (register name token v))

  abbrev pub register_names : List String → String → Vault → Vault
  register_names [] token v = v
  register_names (name ∷ names) token v = register_names names token (register_name name token v)

  abbrev pub handles : Person → List String
  handles p = p.usernames ++ p.phones ++ p.emails

  -- The loop of `tokenFor`.
  unfoldable pub known_token : List String → Vault → Option String
  known_token [] v = none
  known_token (value ∷ values) v =
      let rest = known_token values v in
      elim (lookup (key_of value) v.by_value) [
        | some token ↦ some (trim_possessive token)
        | none ↦ rest
      ]

-- `draw` is the number with which the loop of `mint` ends, from `crypto/rand`.
module _ ⦃platform : Platform⦄ (draw : Vault → ℕ) where
  -- `mint`.
  unfoldable pub mint : String → Vault → String × Vault
  mint display v =
      let token = concat "CONTACT_" (platform.decimal (draw v)) in
      (token, record v { by_token = insert token display v.by_token })

  -- `tokenFor`.
  unfoldable pub token_for : Person → Vault → String × Vault
  unfolding known_token mint
  token_for p v = elim (known_token ((p.name ∷ p.alt_names) ++ handles p) v) [
    | some token ↦ (token, v)
    | none ↦ mint p.name v
  ]

  -- `registerPerson`.
  unfoldable pub register_person : Person → Vault → Vault
  register_person p v =
      let (token, v') = token_for p v in
      register_all (handles p) token (register_names (p.name ∷ p.alt_names) token v')

  unfoldable pub register_people : List Person → Vault → Vault
  register_people [] v = v
  register_people (p ∷ ps) v = register_people ps (register_person p v)

  -- `Update`.
  unfoldable pub update_vault : List Person → Vault → Vault
  update_vault ps v = sort_replacer (register_people ps v)

  -- `NewVault`.
  unfoldable pub new_vault : List Person → Vault
  new_vault ps = update_vault ps (record { by_value = []; by_token = []; replacer = [] })

-- `strings.ToUpper` on a byte of ASCII; no other character has an upper case among those compared.
abbrev upper : ℕ → ℕ
upper b = if leb b'a' b && leb b b'z' then b - 32 else b

-- The bytes of "CONTACT".
abbrev token_word : List ℕ
token_word = b'C' ∷ b'O' ∷ b'N' ∷ b'T' ∷ b'A' ∷ b'C' ∷ b'T' ∷ []

abbrev all_digits : List ℕ → Bool
all_digits [] = true
all_digits (b ∷ bs) = (leb b'0' b && leb b b'9') && all_digits bs

abbrev after_word : List ℕ → Bool
after_word [] = true
after_word (b ∷ bs) = (eqb b b' ' || eqb b b'_' || eqb b b'-') && all_digits bs

-- `tokenPrefix`, with the letters of the word that are left.
unfoldable pub matches : List ℕ → List ℕ → Bool
matches [] s = after_word s
matches (w ∷ ws) [] = true
matches (w ∷ ws) (b ∷ bs) = eqb (upper b) w && matches ws bs

abbrev pub token_prefix : List ℕ → Bool
token_prefix s = matches token_word s

-- The loop of `HoldBack`: the tails of at most 14 bytes, the shortest first.
unfoldable pub hold_loop : List ℕ → ℕ → ℕ → List ℕ × List ℕ
hold_loop text k ℕ.zero = (text, [])
hold_loop text k (ℕ.suc left) =
    let tail = drop (length text - k) text in
    let rest = hold_loop text (k + 1) left in
    if leb k (length text)
    then (if token_prefix tail then (take (length text - k) text, tail) else rest)
    else (text, [])

unfoldable pub hold_back : List ℕ → List ℕ × List ℕ
hold_back text = hold_loop text 1 14

-- internal/llm/client.go: `emitDelta` over the chunks of a stream, and what is emitted at its end. The
-- pieces are those that the code passes on through `Rehydrate`.
abbrev pub unless_empty : List ℕ → List (List ℕ) → List (List ℕ)
unless_empty [] pieces = pieces
unless_empty (b ∷ bs) pieces = (b ∷ bs) ∷ pieces

unfoldable pub stream_pieces : List ℕ → List (List ℕ) → List (List ℕ)
stream_pieces hold [] = unless_empty hold []
stream_pieces hold (chunk ∷ chunks) =
    let (emit, hold') = hold_back (hold ++ chunk) in unless_empty emit (stream_pieces hold' chunks)
