-- ===== src/Base/Texts.antt =====
-- What the program uses of Go's `strings` package, over the code points of a text.
use Prim.Native.Nat.{ℕ, zero, suc, ◌+◌}
use Prim.Native.Char.{code}
use Prim.Native.String.{String}
use mathlib.Core.Bool.{Bool, true, false, ◌&&◌, ◌||◌}
use Prim.Native.String.{◌++◌ as append}
use mathlib.Core.List.{List, [], ◌∷◌}
use text.Mathlib.Text.{◌==◌}
use mathlib.Core.Path.{◌≡◌, refl, ap, ◌∙◌}
use mathlib.Core.Logic.{inl, inr}
use beeper_tui.Base.Tests.{Bool-cases, eqb, leb, ltb, if◌then◌else◌}

-- `unicode.IsSpace`.
abbrev pub is_space : ℕ → Bool
is_space c =
    (leb 9 c && leb c 13)
    || eqb c 32
    || eqb c 0x85
    || eqb c 0xa0
    || eqb c 0x1680
    || (leb 0x2000 c && leb c 0x200a)
    || eqb c 0x2028
    || eqb c 0x2029
    || eqb c 0x202f
    || eqb c 0x205f
    || eqb c 0x3000

-- `strings.TrimLeftFunc(s, unicode.IsSpace)`, and the other end.
unfoldable pub trim_left : String → String
trim_left String.[] = ""
trim_left (String.◌∷◌ c s) =
    let rest = trim_left s in if is_space (code c) then rest else String.◌∷◌ c s

unfoldable pub trim_right : String → String
trim_right String.[] = ""
trim_right (String.◌∷◌ c s) =
    let rest = trim_right s in if is_space (code c) && rest == "" then "" else String.◌∷◌ c rest

-- `strings.TrimSpace`.
unfoldable pub trim_space : String → String
unfolding trim_left trim_right
trim_space s = trim_right (trim_left s)

trim_right_idem : (s : String) → trim_right (trim_right s) ≡ trim_right s
unfolding trim_right
trim_right_idem String.[] = refl
trim_right_idem (String.◌∷◌ c s) = elim (Bool-cases (is_space (code c) && trim_right s == "")) [
  | inl blank ↦ rw (trim_right, blank) refl
  | inr kept ↦ rw (trim_right, kept, trim_right_idem s, kept) refl
]

trim_left-trim_right :
    (s : String) → trim_left (trim_right (trim_left s)) ≡ trim_right (trim_left s)
unfolding trim_right trim_left
trim_left-trim_right String.[] = refl
trim_left-trim_right (String.◌∷◌ c s) = elim (Bool-cases (is_space (code c))) [
  | inl blank ↦ rw (trim_left, blank) (trim_left-trim_right s)
  | inr kept ↦ rw (trim_left, kept, trim_right, kept, trim_left, kept) refl
]

pub trim_space_idem : (s : String) → trim_space (trim_space s) ≡ trim_space s
unfolding trim_space
trim_space_idem s = ap trim_right (trim_left-trim_right s) ∙ trim_right_idem (trim_left s)

-- `string(r[:len(r)-1])` for the runes `r` of a text that is not empty; the empty text stays.
unfoldable pub drop_last_rune : String → String
drop_last_rune String.[] = ""
drop_last_rune (String.◌∷◌ c s) =
    let rest = drop_last_rune s in if s == "" then "" else String.◌∷◌ c rest

-- `strings.HasPrefix(s, p)` as `has_prefix p s`.
unfoldable pub has_prefix : String → String → Bool
has_prefix String.[] s = true
has_prefix (String.◌∷◌ c p) String.[] = false
has_prefix (String.◌∷◌ c p) (String.◌∷◌ d s) = eqb (code c) (code d) && has_prefix p s

-- `strings.Contains(s, p)` as `contains p s`.
unfoldable pub contains : String → String → Bool
unfolding has_prefix
contains p String.[] = has_prefix p ""
contains p (String.◌∷◌ c s) = has_prefix p (String.◌∷◌ c s) || contains p s

-- `strings.TrimLeft(s, " \n\t")`.
unfoldable pub trim_left_blank : String → String
trim_left_blank String.[] = ""
trim_left_blank (String.◌∷◌ c s) =
    let rest = trim_left_blank s in
    if eqb (code c) 32 || eqb (code c) 10 || eqb (code c) 9 then rest else String.◌∷◌ c s

-- `strings.TrimRight(s, "/")`.
unfoldable pub trim_right_slash : String → String
trim_right_slash String.[] = ""
trim_right_slash (String.◌∷◌ c s) =
    let rest = trim_right_slash s in if eqb (code c) 47 && rest == "" then "" else String.◌∷◌ c rest

-- `len(s)`, the bytes of a text in UTF-8.
abbrev pub rune_len : ℕ → ℕ
rune_len c = if ltb c 0x80 then 1 else if ltb c 0x800 then 2 else if ltb c 0x10000 then 3 else 4

unfoldable pub byte_len : String → ℕ
byte_len String.[] = 0
byte_len (String.◌∷◌ c s) = rune_len (code c) + byte_len s

-- `strings.Fields`: the word that a text starts with, and the other words.
abbrev pub push_word : String → List String → List String
push_word w ws = if w == "" then ws else w ∷ ws

unfoldable pub split_words : String → String × List String
split_words String.[] = ("", [])
split_words (String.◌∷◌ c s) =
    let (w, ws) = split_words s in
    if is_space (code c) then ("", push_word w ws) else (String.◌∷◌ c w, ws)

unfoldable pub fields : String → List String
unfolding split_words
fields s = let (w, ws) = split_words s in push_word w ws

-- The concatenation of some texts.
abbrev pub texts : List String → String
texts [] = ""
texts (s ∷ ss) = append s (texts ss)

-- `strings.Join(ss, sep)`.
abbrev pub join : List String → String → String
join [] sep = ""
join (s ∷ []) sep = s
join (s ∷ t ∷ ts) sep = texts (s ∷ sep ∷ join (t ∷ ts) sep ∷ [])

-- A text without its first characters.
abbrev pub drop_runes : ℕ → String → String
drop_runes zero s = s
drop_runes (suc n) String.[] = ""
drop_runes (suc n) (String.◌∷◌ c s) = drop_runes n s
