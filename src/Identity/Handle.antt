-- ===== src/Identity/Handle.antt =====
-- internal/identity/identity.go: digits of a phone number, and texts that are addresses, not names.
use beeper_tui.Base.{
  ℕ, suc, Bool, true, false, not, ◌&&◌, ◌||◌, String, ◌==◌, if◌then◌else◌, eqb, leb, trim_space,
  contains,
}
use Prim.Native.Char.{code}

abbrev pub is_digit : ℕ → Bool
is_digit c = leb b'0' c && leb c b'9'

-- `DigitsOnly`.
unfoldable pub digits_only : String → String
digits_only String.[] = ""
digits_only (String.◌∷◌ c s) =
    let rest = digits_only s in if is_digit (code c) then String.◌∷◌ c rest else rest

-- The separators that a phone number may hold.
abbrev is_separator : ℕ → Bool
is_separator c = eqb c b'+' || eqb c b' ' || eqb c b'-' || eqb c b'(' || eqb c b')' || eqb c b'.'

-- The loop of `IsHandleLike` over the characters, with the digits seen so far.
number_like : ℕ → String → Bool
number_like digits String.[] = leb 3 digits
number_like digits (String.◌∷◌ c s) =
    let rest = number_like (if is_digit (code c) then suc digits else digits) s in
    if is_digit (code c) || is_separator (code c) then rest else false

-- `IsHandleLike`.
unfoldable pub is_handle_like : String → Bool
unfolding number_like
is_handle_like text =
    let s = trim_space text in
    if s == ""
    then false
    else if contains "@" s && not (contains " " s)
    then true
    else number_like 0 s
