-- ===== src/Nav/Window/Scroll.antt =====
-- The scroll window: a row or a cursor message is on the screen after a clamp, and a second clamp
-- changes nothing.
use Prim.Native.Nat.{min}
use beeper_tui.Base.{ℕ, zero, suc, ◌+◌, ◌-◌, ◌≤◌, ◌<◌, ◌≡◌, refl, ◌⊎◌, inl, inr, arith, ltb, false}
use beeper_tui.Nav.Window.{lines_between, max_offset_loop, scroll_to, scroll_down, clamp_offset}
use native.Mathlib.Decide.{dec_lt}
use beeper_tui.Nav.Window.Bottom.{lines_from_mono, IsBottom, max_offset-IsBottom}

-- The row is on the screen, and the offset moves no further than it must.
pub scroll_to_visible :
    (row offset vr : ℕ)
    → 0 < vr
    → (scroll_to row offset vr ≤ row) × (row < scroll_to row offset vr + vr)
unfolding scroll_to
scroll_to_visible row offset vr p = ground arith

pub scroll_to_kept :
    (row offset vr : ℕ) → offset ≤ row → row < offset + vr → scroll_to row offset vr ≡ offset
unfolding scroll_to
scroll_to_kept row offset vr p q = ground arith

pub scroll_to_idem :
    (row offset vr : ℕ)
    → 0 < vr
    → scroll_to row (scroll_to row offset vr) vr ≡ scroll_to row offset vr
scroll_to_idem row offset vr p =
    let shown = scroll_to_visible row offset vr p in
    scroll_to_kept row (scroll_to row offset vr) vr shown.0 shown.1

module _ (h : ℕ → ℕ) (vr n sel : ℕ) where
  -- The loop stops where its test fails.
  abbrev pub IsSettled : ℕ → Type 0
  IsSettled off = (off ≤ sel) × ((off ≡ sel) ⊎ (lines_between h n off sel ≤ vr))

  pub scroll_down-IsSettled :
      (fuel off : ℕ) → off ≤ sel → sel - off ≤ fuel → IsSettled (scroll_down h vr n sel fuel off)
  unfolding scroll_down
  scroll_down-IsSettled zero off p q = (p, inl (omega arith))
  scroll_down-IsSettled (suc fuel) off p q = ground (arith, scroll_down-IsSettled fuel (off + 1))

  -- From a settled offset it does not move.
  pub scroll_down_kept : (fuel off : ℕ) → IsSettled off → scroll_down h vr n sel fuel off ≡ off
  unfolding scroll_down
  scroll_down_kept zero off s = refl
  scroll_down_kept (suc fuel) off s = ground arith

  -- It never passes an offset that settles the cursor.
  pub scroll_down-le :
      (fuel off top : ℕ) → off ≤ top → IsSettled top → scroll_down h vr n sel fuel off ≤ top
  unfolding scroll_down
  scroll_down-le zero off top p s = p
  scroll_down-le (suc fuel) off top p s = elim (dec_lt off top) [
    | yes lt ↦ ground (arith, scroll_down-le fuel (off + 1) top)
    | no ge ↦
        let here : off ≡ top = omega arith in
        rw here (omega (arith, scroll_down_kept (suc fuel) top s))
  ]

module _ (h : ℕ → ℕ) (vr n sel : ℕ) (sel_lt : sel < n) where
  abbrev top : ℕ
  top = max_offset_loop h vr n n 0

  bottom : IsBottom h vr n top
  bottom = max_offset-IsBottom h vr n (omega arith)

  -- The bottom shows every message after it, so it settles any cursor there.
  top-IsSettled : top ≤ sel → IsSettled h vr n sel top
  unfolding lines_between
  top-IsSettled le = (
    le,
    elim bottom.fits [
      | inr last ↦ inl (omega arith)
      | inl fit ↦
          inr (omega (arith, lines_from_mono h top (min (sel + 1) n - top) (n - top) (omega arith)))
    ],
  )

  pub clamp_offset-IsSettled : (off : ℕ) → IsSettled h vr n sel (clamp_offset h vr n sel off)
  unfolding clamp_offset
  clamp_offset-IsSettled off = scroll_down-IsSettled h vr n sel _ _ (ground arith) (omega arith)

  pub clamp_offset-le_top : (off : ℕ) → clamp_offset h vr n sel off ≤ top
  unfolding clamp_offset
  clamp_offset-le_top off = elim (dec_lt sel top) [
    | yes lt ↦ omega (arith, (clamp_offset-IsSettled off).0)
    | no ge ↦ scroll_down-le h vr n sel _ _ top (ground arith) (top-IsSettled (omega arith))
  ]

  pub clamp_offset_kept :
      (off : ℕ) → off ≤ top → IsSettled h vr n sel off → clamp_offset h vr n sel off ≡ off
  unfolding clamp_offset
  clamp_offset_kept off le s =
      let a : ltb top off ≡ false = ground arith in
      let b : ltb sel off ≡ false = ground arith in rw (a, b) (scroll_down_kept h vr n sel _ off s)

  -- Clamping twice is clamping once.
  pub clamp_offset_idem :
      (off : ℕ)
      → clamp_offset h vr n sel (clamp_offset h vr n sel off) ≡ clamp_offset h vr n sel off
  clamp_offset_idem off =
      clamp_offset_kept (clamp_offset h vr n sel off) (clamp_offset-le_top off)
        (clamp_offset-IsSettled off)
