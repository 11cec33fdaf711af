-- ===== src/Nav/Window/Bottom.antt =====
-- The bottom of a conversation: what `maxMsgOffset` computes.
use beeper_tui.Base.{
  ℕ, zero, suc, ◌+◌, ◌-◌, ◌≤◌, ◌<◌, ◌≡◌, refl, ◌⊎◌, inl, inr, arith, ltb, ltb→ge, ltb→lt, eqb,
  Bool-cases, ap,
}
use beeper_tui.Nav.Window.{lines_from, max_offset_loop}

module _ (h : ℕ → ℕ) where
  lines_from-suc : (a k : ℕ) → lines_from h a (suc k) ≡ h a + lines_from h (suc a) k
  unfolding lines_from
  lines_from-suc a k = refl

  lines_from_at : (a b k : ℕ) → a ≡ b → lines_from h a k ≡ lines_from h b k
  lines_from_at a b k e = ap (λ x. lines_from h x k) e

  pub lines_from-add :
      (a k j : ℕ) → lines_from h a (k + j) ≡ lines_from h a k + lines_from h (a + k) j
  unfolding lines_from
  lines_from-add a zero j = grind arith
  lines_from-add a (suc k) j = grind (arith, lines_from-add (suc a) k j)

  -- More messages from the same start are more lines.
  pub lines_from_mono : (a k j : ℕ) → k ≤ j → lines_from h a k ≤ lines_from h a j
  lines_from_mono a k j le =
      let split : j ≡ k + (j - k) = omega arith in
      rw split (omega (arith, lines_from-add a k (j - k)))

  -- Fewer messages from a later start are fewer lines.
  pub lines_from_antitone :
      (n a b : ℕ) → a ≤ b → b ≤ n → lines_from h b (n - b) ≤ lines_from h a (n - a)
  lines_from_antitone n a b p q =
      let split : n - a ≡ (b - a) + (n - b) = omega arith in
      let start : a + (b - a) ≡ b = omega arith in
      rw split (
        omega
          (arith, lines_from-add a (b - a) (n - b), lines_from_at (a + (b - a)) b (n - b) start))

  -- An offset that pins the bottom: from it on everything fits, or only the last message is left, and
  -- from any earlier one it does not fit.
  pub record IsBottom (vr n top : ℕ) : Type 0 where
    pub in_range : top < n
    pub fits : (lines_from h top (n - top) ≤ vr) ⊎ (top ≡ n - 1)
    pub first : (o : ℕ) → o < top → vr < lines_from h o (n - o)

  -- One more message in front.
  lines_from_step :
      (n i lines : ℕ)
      → suc i ≤ n
      → lines ≡ lines_from h (suc i) (n - suc i)
      → lines + h i ≡ lines_from h i (n - i)
  lines_from_step n i lines q e =
      let more : n - i ≡ suc (n - suc i) = omega arith in
      rw more (omega (arith, lines_from-suc i (n - suc i)))

  overflow-first :
      (vr n i o : ℕ) → suc i ≤ n → vr < lines_from h i (n - i) → o ≤ i → vr < lines_from h o (n - o)
  overflow-first vr n i o q over le = omega (arith, lines_from_antitone n o i le (omega arith))

  loop-IsBottom :
      (vr n i lines : ℕ)
      → 0 < n
      → i ≤ n
      → lines ≡ lines_from h i (n - i)
      → (lines ≤ vr)
      → IsBottom vr n (max_offset_loop h vr n i lines)
  unfolding max_offset_loop
  loop-IsBottom vr n zero lines p q e f = record {
    in_range = p;
    fits = inl (omega arith);
    first = λ o lt. elim lt [ ];
  }
  loop-IsBottom vr n (suc i) lines p q e f =
      let step = lines_from_step n i lines q e in
      elim (Bool-cases (ltb vr (lines + h i))) [
        | inr fit ↦
            rw fit (loop-IsBottom vr n i (lines + h i) p (omega arith) step (ltb→ge vr _ fit))
        | inl over ↦
            let over' : vr < lines_from h i (n - i) = omega (arith, ltb→lt vr _ over) in
            elim (Bool-cases (eqb i (n - 1))) [
              | inl last ↦
                  rw (over, last)
                    (record {
                      in_range = q;
                      fits = inr (ground arith);
                      first = λ o lt. overflow-first vr n i o q over' (omega arith);
                    })
              | inr inner ↦
                  rw (over, inner)
                    (record {
                      in_range = ground arith;
                      fits = inl (let next : i + 1 ≡ suc i = omega arith in rw next (rw (← e) f));
                      first = λ o lt. overflow-first vr n i o q over' (omega arith);
                    })
            ]
      ]

  none_left : (n : ℕ) → 0 ≡ lines_from h n (n - n)
  unfolding lines_from
  none_left n = let none : n - n ≡ 0 = omega arith in rw none

  -- For messages of any heights the maximal offset is the index of a message; the messages from it on
  -- fit on the screen, unless it is the last message, and from no earlier message on do they fit.
  pub max_offset-IsBottom : (vr n : ℕ) → 0 < n → IsBottom vr n (max_offset_loop h vr n n 0)
  max_offset-IsBottom vr n p = loop-IsBottom vr n n 0 p (omega arith) (none_left n) (omega arith)
