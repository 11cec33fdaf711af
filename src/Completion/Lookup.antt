-- ===== src/Completion/Lookup.antt =====
-- internal/llm/client.go: the map of the calls by their index.
use Prim.Native.String.{◌++◌ as concat}
use beeper_tui.Base.{
  ◌≡◌, refl, sym, ap, ◌∙◌, pos, negsuc, ℕ, true, false, String, List, [], ◌∷◌, Option, none, some,
  eqb, if◌then◌else◌, Bool-cases, inl, inr, arith,
}
use beeper_tui.Completion.{ToolCall, Fragment}
use beeper_tui.Completion.Stream.{new_call, extend, at_call, call_of}

-- The arguments of a call, empty where there is none.
abbrev pub arguments_of : Option ToolCall → String
arguments_of none = ""
arguments_of (some c) = c.function.arguments

-- The arguments that a fragment has for the call of an index.
abbrev pub part_for : ℕ → Fragment → String
part_for i f = elim f.index [ negsuc n ↦ "" | pos j ↦ if eqb j i then f.arguments else "" ]

abbrev pub parts_for : ℕ → List Fragment → String
parts_for i [] = ""
parts_for i (f ∷ fs) = concat (part_for i f) (parts_for i fs)

module _ (i j : ℕ) (c : ToolCall) (cs : List (ℕ × ToolCall)) where
  call_of_here : eqb j i ≡ true → call_of i ((j, c) ∷ cs) ≡ some c
  unfolding call_of
  call_of_here h = rw (call_of, h) refl

  call_of_later : eqb j i ≡ false → call_of i ((j, c) ∷ cs) ≡ call_of i cs
  unfolding call_of
  call_of_later h = rw (call_of, h) refl

  at_call_here :
      (f : ToolCall → ToolCall) → eqb j i ≡ true → at_call i f ((j, c) ∷ cs) ≡ (j, f c) ∷ cs
  unfolding at_call
  at_call_here f h = rw (at_call, h) refl

  at_call_later :
      (f : ToolCall → ToolCall)
      → eqb j i ≡ false
      → at_call i f ((j, c) ∷ cs) ≡ (j, c) ∷ at_call i f cs
  unfolding at_call
  at_call_later f h = rw (at_call, h) refl

eqb_refl : (i : ℕ) → eqb i i ≡ true
eqb_refl i = ground arith

eqb_moved : (i j k : ℕ) → eqb k j ≡ true → eqb j i ≡ false → eqb k i ≡ false
eqb_moved i j k h g = ground arith

pub call_of-at_call_same :
    (i : ℕ) (f : Fragment) (cs : List (ℕ × ToolCall))
    → arguments_of (call_of i (at_call i (extend f) cs))
      ≡ concat (arguments_of (call_of i cs)) f.arguments
unfolding call_of at_call
call_of-at_call_same i f [] = ap arguments_of (call_of_here i i (extend f new_call) [] (eqb_refl i))
call_of-at_call_same i f ((j, c) ∷ cs) = elim (Bool-cases (eqb j i)) [
  | inl here ↦
      ap (λ l. arguments_of (call_of i l)) (at_call_here i j c cs (extend f) here)
      ∙ ap arguments_of (call_of_here i j (extend f c) cs here)
      ∙ ap (λ o. concat (arguments_of o) f.arguments) (sym (call_of_here i j c cs here))
  | inr other ↦
      ap (λ l. arguments_of (call_of i l)) (at_call_later i j c cs (extend f) other)
      ∙ ap arguments_of (call_of_later i j c (at_call i (extend f) cs) other)
      ∙ call_of-at_call_same i f cs
      ∙ ap (λ o. concat (arguments_of o) f.arguments) (sym (call_of_later i j c cs other))
]

pub call_of-at_call_other :
    (i j : ℕ) (f : Fragment) (cs : List (ℕ × ToolCall))
    → eqb j i ≡ false
    → call_of i (at_call j (extend f) cs) ≡ call_of i cs
unfolding call_of at_call
call_of-at_call_other i j f [] ne = call_of_later i j (extend f new_call) [] ne
call_of-at_call_other i j f ((k, c) ∷ cs) ne = elim (Bool-cases (eqb k j)) [
  | inl here ↦
      let away = eqb_moved i j k here ne in
      ap (call_of i) (at_call_here j k c cs (extend f) here)
      ∙ call_of_later i k (extend f c) cs away
      ∙ sym (call_of_later i k c cs away)
  | inr other ↦
      ap (call_of i) (at_call_later j k c cs (extend f) other) ∙ elim (Bool-cases (eqb k i)) [
        | inl found ↦
            call_of_here i k c (at_call j (extend f) cs) found ∙ sym (call_of_here i k c cs found)
        | inr later ↦
            call_of_later i k c (at_call j (extend f) cs) later
            ∙ call_of-at_call_other i j f cs ne
            ∙ sym (call_of_later i k c cs later)
      ]
]
