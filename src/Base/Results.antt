-- ===== src/Base/Results.antt =====
-- What a call returns that can fail: a value or the text of an error.
use Prim.Native.String.{String}

pub data Result {ℓ} (A : Type ℓ) : Type ℓ where
  ok : A → Result A
  error : String → Result A

infixl 5 ◌>>=◌
abbrev pub ◌>>=◌ {ℓ κ} : {A : Type ℓ} {B : Type κ} → Result A → (A → Result B) → Result B
ok a >>= f = f a
error e >>= f = error e

-- `v, _ := …`: the zero value on an error.
abbrev pub or_zero_value {ℓ} : {A : Type ℓ} → A → Result A → A
or_zero_value z (ok a) = a
or_zero_value z (error e) = z
