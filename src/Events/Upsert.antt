-- ===== src/Events/Upsert.antt =====
-- internal/ui/wsevents.go: `upsertMessage` makes a message list a map from IDs to messages, in the
-- order of arrival.
use beeper_tui.Base.{
  ◌≡◌, refl, ap, Bool-cases, inl, inr, false, String, ◌==◌, eq_iff, eq_refl, List, [], ◌∷◌, Option,
  none, some, if◌then◌else◌, All, arith,
}
use mathlib.Core.Path.{subst}
use beeper_tui.Api.{Message}
use beeper_tui.Events.{upsert_message}

-- The first message with the ID.
abbrev pub find_message : String → List Message → Option Message
find_message id [] = none
find_message id (x ∷ xs) = if x.id == id then some x else find_message id xs

-- No two messages have the same ID.
abbrev pub IsUnique : List Message → Type 0
IsUnique [] = Unit
IsUnique (x ∷ xs) = All (λ (y : Message). (y.id == x.id) ≡ false) xs × IsUnique xs

-- Looking up an ID after an upsert finds the new message under its own ID, and what was found before
-- under every other.
pub find-upsert_message :
    (xs : List Message) (msg : Message) (id : String)
    → find_message id (upsert_message xs msg)
      ≡ (if msg.id == id then some msg else find_message id xs)
unfolding upsert_message
find-upsert_message [] msg id = refl
find-upsert_message (x ∷ xs) msg id =
    ground
      (arith, eq_iff x.id msg.id, eq_iff msg.id id, eq_iff x.id id, find-upsert_message xs msg id)

-- The same event delivered twice changes nothing the second time.
pub upsert_message_idem :
    (xs : List Message) (msg : Message)
    → upsert_message (upsert_message xs msg) msg ≡ upsert_message xs msg
unfolding upsert_message
upsert_message_idem [] msg = rw eq_refl
upsert_message_idem (x ∷ xs) msg = elim (Bool-cases (x.id == msg.id)) [
  | inl same ↦ rw (same, upsert_message, eq_refl)
  | inr other ↦ rw (other, upsert_message, other) (ap (λ ys. x ∷ ys) (upsert_message_idem xs msg))
]

upsert-All :
    (P : Message → Type 0) (xs : List Message) (msg : Message)
    → P msg
    → All P xs
    → All P (upsert_message xs msg)
unfolding upsert_message
upsert-All P [] msg p h = (p, tt)
upsert-All P (x ∷ xs) msg p (q, h) = elim (Bool-cases (x.id == msg.id)) [
  | inl same ↦ rw same (p, h)
  | inr other ↦ rw other (q, upsert-All P xs msg p h)
]

flip_false : (s t : String) → (s == t) ≡ false → (t == s) ≡ false
flip_false s t h = ground (arith, eq_iff s t, eq_iff t s)

-- An upsert into a list without repeated IDs leaves one without repeated IDs.
pub upsert_message-IsUnique :
    (xs : List Message) (msg : Message) → IsUnique xs → IsUnique (upsert_message xs msg)
unfolding upsert_message
upsert_message-IsUnique [] msg u = (tt, tt)
upsert_message-IsUnique (x ∷ xs) msg (h, u) = elim (Bool-cases (x.id == msg.id)) [
  | inl same ↦
      let e = (eq_iff x.id msg.id).0 same in
      rw same (subst (λ id. All (λ (y : Message). (y.id == id) ≡ false) xs) e h, u)
  | inr other ↦ rw other (
    upsert-All (λ (y : Message). (y.id == x.id) ≡ false) xs msg (flip_false _ _ other) h,
    upsert_message-IsUnique xs msg u,
  )
]
