-- ===== src/Redact/Stream.antt =====
-- internal/redact/redact.go: what `HoldBack` emits and holds.
use mathlib.Core.List.{append-nil, append_assoc}
use beeper_tui.Base.{
  ◌≡◌, refl, sym, ap, ◌∙◌, ℕ, zero, suc, ◌+◌, ◌-◌, ◌≤◌, ◌<◌, ◌⊎◌, Bool-cases, inl, inr, true, List,
  [], ◌∷◌, ◌++◌, leb, length, take, drop, length-drop, length-append, arith,
}
use beeper_tui.Redact.{hold_back, hold_loop, token_prefix, matches, stream_pieces, unless_empty}

take-append-drop {ℓ} : {A : Type ℓ} (n : ℕ) (xs : List A) → take n xs ++ drop n xs ≡ xs
take-append-drop zero xs = refl
take-append-drop (suc n) [] = refl
take-append-drop (suc n) (x ∷ xs) = ap (λ ys. x ∷ ys) (take-append-drop n xs)

-- The text is whole, and what is held is nothing or a short start of a token.
abbrev pub IsSplit : ℕ → List ℕ → List ℕ × List ℕ → Type 0
IsSplit limit text parts =
    (parts.0 ++ parts.1 ≡ text)
    × (length parts.1 ≤ limit)
    × ((parts.1 ≡ []) ⊎ (token_prefix parts.1 ≡ true))

loop-IsSplit :
    (text : List ℕ) (k left : ℕ) → 0 < k → IsSplit (k + left - 1) text (hold_loop text k left)
unfolding hold_loop
loop-IsSplit text k zero p = (append-nil text, omega arith, inl refl)
loop-IsSplit text k (suc left) p =
    let n = length text - k in
    elim (Bool-cases (leb k (length text))) [
      | inr past ↦ rw (hold_loop, past) (append-nil text, omega arith, inl refl)
      | inl within ↦ elim (Bool-cases (token_prefix (drop n text))) [
        | inl start ↦
            let short : length (drop n text) ≤ k + suc left - 1 =
              ground (arith, length-drop n text) in
            rw (hold_loop, within, start) (take-append-drop n text, short, inr start)
        | inr other ↦
            let next : k + suc left - 1 ≡ k + 1 + left - 1 = omega arith in
            rw (hold_loop, within, other, next) (loop-IsSplit text (k + 1) left (omega arith))
      ]
    ]

-- Emitting and holding lose nothing: the two parts make up the text, the held part has at most
-- fourteen bytes, and it is empty or could grow into a token.
pub hold_back-IsSplit : (text : List ℕ) → IsSplit 14 text (hold_back text)
unfolding hold_back
hold_back-IsSplit text = loop-IsSplit text 1 14 (omega arith)

drop_to_last : (xs : List ℕ) (b : ℕ) → drop (length (xs ++ b ∷ []) - 1) (xs ++ b ∷ []) ≡ b ∷ []
drop_to_last [] b = refl
drop_to_last (x ∷ xs) b =
    let one = length-append xs (b ∷ []) in
    let n : length (x ∷ (xs ++ b ∷ [])) - 1 ≡ suc (length (xs ++ b ∷ []) - 1) =
      omega (arith, one) in
    rw n (drop_to_last xs b)

take_to_last : (xs : List ℕ) (b : ℕ) → take (length (xs ++ b ∷ []) - 1) (xs ++ b ∷ []) ≡ xs
take_to_last [] b = refl
take_to_last (x ∷ xs) b =
    let one = length-append xs (b ∷ []) in
    let n : length (x ∷ (xs ++ b ∷ [])) - 1 ≡ suc (length (xs ++ b ∷ []) - 1) =
      omega (arith, one) in
    rw n (ap (λ ys. x ∷ ys) (take_to_last xs b))

c_starts : token_prefix (b'C' ∷ []) ≡ true
unfolding matches
c_starts = refl

-- Of a text that ends in C only that letter is held, whatever stands before it: where the chunk ends
-- in CONTAC, the first five letters of the token are emitted.
pub hold_back_splits_token : (text : List ℕ) → hold_back (text ++ b'C' ∷ []) ≡ (text, b'C' ∷ [])
unfolding hold_back hold_loop
hold_back_splits_token text =
    let one = length-append text (b'C' ∷ []) in
    let within : leb 1 (length (text ++ b'C' ∷ [])) ≡ true = ground (arith, one) in
    rw (hold_back, hold_loop, within, drop_to_last text b'C', c_starts)
      (λ i. (take_to_last text b'C' i, b'C' ∷ []))

abbrev pub join : List (List ℕ) → List ℕ
join [] = []
join (xs ∷ rest) = xs ++ join rest

join-unless_empty :
    (xs : List ℕ) (pieces : List (List ℕ)) → join (unless_empty xs pieces) ≡ xs ++ join pieces
join-unless_empty [] pieces = refl
join-unless_empty (b ∷ bs) pieces = refl

join-stream :
    (chunks : List (List ℕ)) (hold : List ℕ)
    → join (stream_pieces hold chunks) ≡ hold ++ join chunks
unfolding stream_pieces
join-stream [] hold = join-unless_empty hold []
join-stream (chunk ∷ chunks) hold =
    let (emit, hold') = hold_back (hold ++ chunk) in
    join-unless_empty emit (stream_pieces hold' chunks)
    ∙ ap (λ rest. emit ++ rest) (join-stream chunks hold')
    ∙ sym (append_assoc emit hold' (join chunks))
    ∙ ap (λ whole. whole ++ join chunks) (hold_back-IsSplit (hold ++ chunk)).0
    ∙ append_assoc hold chunk (join chunks)

-- However an answer is cut into chunks, the pieces that are shown, before names are put back, make up
-- the answer: nothing that is held back is lost or repeated.
pub join-stream_pieces : (chunks : List (List ℕ)) → join (stream_pieces [] chunks) ≡ join chunks
join-stream_pieces chunks = join-stream chunks []
