-- ===== src/Examples/Secrets.antt =====
-- The vault and the held-back stream on concrete texts.
use beeper_tui.Base.{◌≡◌, refl, ℕ, List, [], ◌∷◌, ◌++◌, some, lookup, All}
use beeper_tui.Identity.Person.{Person, nobody}
use beeper_tui.Redact.{Vault, update_vault, hold_back, hold_loop, matches, stream_pieces}
use beeper_tui.Redact.Tokens.{IsCovered, values_of, update_vault-Keeps, update_vault-IsCovered}
use beeper_tui.Redact.Stream.{join, hold_back_splits_token, join-stream_pieces}
use beeper_tui.Examples.{plain_platform}

abbrev dana : Person
dana = record nobody {
  name = "Dana Fixture";
  usernames = "@dana" ∷ [];
  phones = "+15550000777" ∷ [];
}

abbrev seven : Vault → ℕ
seven _ = 7

-- A vault that has a token for the name.
abbrev one_token : Vault
one_token = record {
  by_value = ("Dana Fixture", "CONTACT_12") ∷ [];
  by_token = ("CONTACT_12", "Dana Fixture") ∷ [];
  replacer = ("Dana Fixture", "CONTACT_12") ∷ [];
}

update_vault-Keeps_example :
    lookup "Dana Fixture" (update_vault seven (dana ∷ []) one_token).by_value ≡ some "CONTACT_12"
unfolding lookup
update_vault-Keeps_example =
    update_vault-Keeps seven (dana ∷ []) one_token "Dana Fixture" "CONTACT_12" refl

update_vault-IsCovered_example :
    All (λ p. All (IsCovered (update_vault seven (dana ∷ []) one_token)) (values_of p)) (dana ∷ [])
update_vault-IsCovered_example = update_vault-IsCovered seven (dana ∷ []) one_token

-- "hi CONT", in bytes.
abbrev greeting : List ℕ
greeting = b'h' ∷ b'i' ∷ b' ' ∷ b'C' ∷ b'O' ∷ b'N' ∷ b'T' ∷ []

-- "CONTA", in bytes.
abbrev start : List ℕ
start = b'C' ∷ b'O' ∷ b'N' ∷ b'T' ∷ b'A' ∷ []

hold_back_splits_token_example : hold_back (start ++ b'C' ∷ []) ≡ (start, b'C' ∷ [])
hold_back_splits_token_example = hold_back_splits_token start

join-stream_pieces_example :
    join (stream_pieces [] (greeting ∷ start ∷ [])) ≡ join (greeting ∷ start ∷ [])
join-stream_pieces_example = join-stream_pieces (greeting ∷ start ∷ [])

-- The tail of the greeting is held.
holds_start : hold_back greeting ≡ (b'h' ∷ b'i' ∷ b' ' ∷ [], b'C' ∷ b'O' ∷ b'N' ∷ b'T' ∷ [])
unfolding hold_back hold_loop matches
holds_start = refl
