-- ===== src/Sorting/Order.antt =====
-- The order of the chat list: sorting permutes the chats, puts pinned ones first and then the most
-- recent, keeps the order of equals, and does nothing to a sorted list.
use mathlib.Core.List.{Perm}
use mathlib.Core.List.Perm
use beeper_tui.Base.{
  ℕ, ◌≤◌, ◌⊎◌, ltb, ltb→ge, Bool, ◌&&◌, eqb, keep, if◌then◌else◌, ◌≡◌, refl, ap, ◌∙◌, true, false,
  List, [], ◌∷◌, arith, Bool-cases, inl, inr, All,
}
use beeper_tui.Api.{Chat}
use beeper_tui.Sorting.{before, insert_chat, sort_chats, same_bool}

-- No later chat belongs before an earlier one.
abbrev pub IsSorted : List Chat → Type 0
IsSorted [] = Unit
IsSorted (c ∷ cs) = All (λ d. before d c ≡ false) cs × IsSorted cs

before_trans : (a b c : Chat) → before b a ≡ false → before c b ≡ false → before c a ≡ false
unfolding before
before_trans a b c p q = ground arith

before_flip : (a b : Chat) → before a b ≡ true → before b a ≡ false
unfolding before
before_flip a b p = ground arith

All-before_trans :
    (a b : Chat) (cs : List Chat)
    → before b a ≡ false
    → All (λ d. before d b ≡ false) cs
    → All (λ d. before d a ≡ false) cs
All-before_trans a b [] p h = tt
All-before_trans a b (c ∷ cs) p (q, h) = (before_trans a b c p q, All-before_trans a b cs p h)

All-insert :
    (P : Chat → Type 0) (c : Chat) (cs : List Chat) → P c → All P cs → All P (insert_chat c cs)
unfolding insert_chat
All-insert P c [] p h = (p, tt)
All-insert P c (d ∷ ds) p (q, h) = elim (Bool-cases (before d c)) [
  | inl first ↦ rw first (q, All-insert P c ds p h)
  | inr stop ↦ rw stop (p, (q, h))
]

insert-IsSorted : (c : Chat) (cs : List Chat) → IsSorted cs → IsSorted (insert_chat c cs)
unfolding insert_chat
insert-IsSorted c [] s = (tt, tt)
insert-IsSorted c (d ∷ ds) (h, s) = elim (Bool-cases (before d c)) [
  | inl first ↦
      rw first (
        All-insert (λ x. before x d ≡ false) c ds (before_flip d c first) h,
        insert-IsSorted c ds s,
      )
  | inr stop ↦ rw stop ((stop, All-before_trans c d ds stop h), (h, s))
]

-- The sorted list has no chat before one that belongs in front of it.
pub sort-IsSorted : (cs : List Chat) → IsSorted (sort_chats cs)
unfolding sort_chats
sort-IsSorted [] = tt
sort-IsSorted (c ∷ cs) = insert-IsSorted c (sort_chats cs) (sort-IsSorted cs)

pub insert-perm : (c : Chat) (cs : List Chat) → Perm (insert_chat c cs) (c ∷ cs)
unfolding insert_chat
insert-perm c [] = Perm.refl _
insert-perm c (d ∷ ds) = elim (Bool-cases (before d c)) [
  | inl first ↦ rw first (Perm.trans (Perm.cons d (insert-perm c ds)) (Perm.swap _ _ _))
  | inr stop ↦ rw stop (Perm.refl _)
]

-- Sorting loses no chat and adds none.
pub sort-perm : (cs : List Chat) → Perm (sort_chats cs) cs
unfolding sort_chats
sort-perm [] = Perm.refl _
sort-perm (c ∷ cs) = Perm.trans (insert-perm c (sort_chats cs)) (Perm.cons c (sort-perm cs))

insert_of_All :
    (c : Chat) (cs : List Chat) → All (λ d. before d c ≡ false) cs → insert_chat c cs ≡ c ∷ cs
unfolding insert_chat
insert_of_All c [] h = refl
insert_of_All c (d ∷ ds) (p, h) = rw p

-- A list that is sorted is left as it is: in particular the order of equals is kept.
pub sort_of_IsSorted : (cs : List Chat) → IsSorted cs → sort_chats cs ≡ cs
unfolding sort_chats
sort_of_IsSorted [] s = refl
sort_of_IsSorted (c ∷ cs) (h, s) = ap (insert_chat c) (sort_of_IsSorted cs s) ∙ insert_of_All c cs h

-- The chats of one rank.
abbrev pub same_rank : Bool → ℕ → Chat → Bool
same_rank pin t c = same_bool c.pinned pin && eqb c.last_active t

keep-insert :
    (pin : Bool) (t : ℕ) (c : Chat) (cs : List Chat)
    → keep (same_rank pin t) (insert_chat c cs) ≡ keep (same_rank pin t) (c ∷ cs)
unfolding insert_chat before
keep-insert pin t c [] = refl
keep-insert pin t c (d ∷ ds) = ground (arith, keep-insert pin t c ds)

keep-cons :
    (p : Chat → Bool) (c : Chat) (cs ds : List Chat)
    → keep p cs ≡ keep p ds
    → keep p (c ∷ cs) ≡ keep p (c ∷ ds)
keep-cons p c cs ds e = ap (λ rest. if p c then c ∷ rest else rest) e

-- A chat may stand before another: it is pinned and the other is not, or both are pinned, or neither
-- is, and it was active at the same time or later.
abbrev pub IsAhead : Chat → Chat → Type 0
IsAhead c d =
    ((c.pinned ≡ true) × (d.pinned ≡ false))
    ⊎ ((c.pinned ≡ d.pinned) × (d.last_active ≤ c.last_active))

abbrev pub IsRanked : List Chat → Type 0
IsRanked [] = Unit
IsRanked (c ∷ cs) = All (IsAhead c) cs × IsRanked cs

same_bool-IsAhead :
    (p q : Bool) (t u : ℕ)
    → (if same_bool q p then ltb t u else q) ≡ false
    → ((p ≡ true) × (q ≡ false)) ⊎ ((p ≡ q) × (u ≤ t))
same_bool-IsAhead true true t u h = inr (refl, ltb→ge t u h)
same_bool-IsAhead true false t u h = inl (refl, refl)
same_bool-IsAhead false true t u h = absurd (ground arith)
same_bool-IsAhead false false t u h = inr (refl, ltb→ge t u h)

before-IsAhead : (c d : Chat) → before d c ≡ false → IsAhead c d
unfolding before
before-IsAhead c d h = same_bool-IsAhead c.pinned d.pinned c.last_active d.last_active h

All-IsAhead : (c : Chat) (cs : List Chat) → All (λ d. before d c ≡ false) cs → All (IsAhead c) cs
All-IsAhead c [] h = tt
All-IsAhead c (d ∷ ds) (p, h) = (before-IsAhead c d p, All-IsAhead c ds h)

IsSorted-IsRanked : (cs : List Chat) → IsSorted cs → IsRanked cs
IsSorted-IsRanked [] s = tt
IsSorted-IsRanked (c ∷ cs) (h, s) = (All-IsAhead c cs h, IsSorted-IsRanked cs s)

-- The sorted list has the pinned chats first and, among the pinned ones and among the others, the
-- most recently active first; it has the same chats as before.
pub sort_chats-IsRanked : (cs : List Chat) → IsRanked (sort_chats cs) × Perm (sort_chats cs) cs
sort_chats-IsRanked cs = (IsSorted-IsRanked (sort_chats cs) (sort-IsSorted cs), sort-perm cs)

-- Chats of one rank stay in the order in which they came.
pub sort_stable :
    (pin : Bool) (t : ℕ) (cs : List Chat)
    → keep (same_rank pin t) (sort_chats cs) ≡ keep (same_rank pin t) cs
unfolding sort_chats
sort_stable pin t [] = refl
sort_stable pin t (c ∷ cs) =
    keep-insert pin t c (sort_chats cs)
    ∙ keep-cons (same_rank pin t) c (sort_chats cs) cs (sort_stable pin t cs)
