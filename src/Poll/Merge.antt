-- ===== src/Poll/Merge.antt =====
-- internal/ui/poll.go: what the merge of a refresh with messages not yet echoed keeps.
use mathlib.Core.List.{append_assoc, append-nil}
use beeper_tui.Base.{
  ◌≡◌, refl, sym, ◌∙◌, ap, Bool-cases, inl, inr, true, false, ◌||◌, String, eq_refl, List, [], ◌∷◌,
  ◌++◌, All, arith, delete,
}
use beeper_tui.Api.{Message}
use beeper_tui.Model.{FailedSend}
use beeper_tui.Poll.{merge_locals, is_local, has_echo, is_echo}

-- An optimistic message that `msgs` does not echo.
abbrev pub IsPending : List Message → Message → Type 0
IsPending msgs old = (is_local old ≡ true) × (has_echo msgs old ≡ false)

has_echo-append :
    (xs ys : List Message) (old : Message)
    → has_echo (xs ++ ys) old ≡ (has_echo xs old || has_echo ys old)
has_echo-append [] ys old = refl
has_echo-append (x ∷ xs) ys old = ground (arith, has_echo-append xs ys old)

not_before :
    (xs ys : List Message) (old : Message)
    → has_echo (xs ++ ys) old ≡ false
    → has_echo xs old ≡ false
not_before xs ys old h = ground (arith, has_echo-append xs ys old)

still_echoed :
    (xs ys : List Message) (old : Message) → has_echo xs old ≡ true → has_echo (xs ++ ys) old ≡ true
still_echoed xs ys old h = ground (arith, has_echo-append xs ys old)

weaken : (xs ys extra : List Message) → All (IsPending (xs ++ ys)) extra → All (IsPending xs) extra
weaken xs ys [] h = tt
weaken xs ys (old ∷ extra) ((l, e), h) = ((l, not_before xs ys old e), weaken xs ys extra h)

-- A result that is the server's list and then optimistic messages it does not echo.
abbrev pub Extends : List Message → List Message → Type 0
Extends msgs merged = (extra : List Message) × (merged ≡ msgs ++ extra) × All (IsPending msgs) extra

Extends-after :
    (msgs : List Message) (old : Message) (merged : List Message)
    → IsPending msgs old
    → Extends (msgs ++ old ∷ []) merged
    → Extends msgs merged
Extends-after msgs old merged p (extra, e, h) =
    (old ∷ extra, e ∙ append_assoc msgs (old ∷ []) extra, (p, weaken msgs (old ∷ []) extra h))

-- The merged list is the server's list, whole and in its order, followed by optimistic messages of
-- which the server's list has no echo.
pub merge_locals-Extends :
    (msgs olds : List Message) (failed : List (String × FailedSend))
    → Extends msgs (merge_locals msgs olds failed).0
unfolding merge_locals
merge_locals-Extends msgs [] failed = ([], sym (append-nil msgs), tt)
merge_locals-Extends msgs (old ∷ olds) failed = elim (Bool-cases (is_local old)) [
  | inr server ↦ rw (merge_locals, server) (merge_locals-Extends msgs olds failed)
  | inl placed ↦ elim (Bool-cases (has_echo msgs old)) [
    | inl echoed ↦
        rw (merge_locals, placed, echoed) (merge_locals-Extends msgs olds (delete old.id failed))
    | inr fresh ↦
        rw (merge_locals, placed, fresh)
          (Extends-after msgs old (merge_locals (msgs ++ old ∷ []) olds failed).0 (placed, fresh)
            (merge_locals-Extends (msgs ++ old ∷ []) olds failed))
  ]
]

-- A sent message counts as its own echo.
echoes_itself : (old : Message) → old.is_from_me ≡ true → is_echo old old ≡ true
unfolding is_echo
echoes_itself old h = ground (arith, eq_refl old.text)

own_echo :
    (msgs : List Message) (old : Message)
    → old.is_from_me ≡ true
    → has_echo (msgs ++ old ∷ []) old ≡ true
own_echo msgs old h = ground (arith, has_echo-append msgs (old ∷ []) old, echoes_itself old h)

echo_kept :
    (msgs olds : List Message) (failed : List (String × FailedSend)) (old : Message)
    → has_echo msgs old ≡ true
    → has_echo (merge_locals msgs olds failed).0 old ≡ true
echo_kept msgs olds failed old h =
    let (extra, e, _) = merge_locals-Extends msgs olds failed in
    ap (λ merged. has_echo merged old) e ∙ still_echoed msgs extra old h

-- An optimistic message that the user sent.
abbrev pub IsSent : Message → Type 0
IsSent old = (is_local old ≡ true) × (old.is_from_me ≡ true)

echo_head :
    (msgs olds : List Message) (failed : List (String × FailedSend)) (old : Message)
    → IsSent old
    → has_echo (merge_locals msgs (old ∷ olds) failed).0 old ≡ true
unfolding merge_locals
echo_head msgs olds failed old (placed, mine) = elim (Bool-cases (has_echo msgs old)) [
  | inl echoed ↦
      rw (merge_locals, placed, echoed) (echo_kept msgs olds (delete old.id failed) old echoed)
  | inr fresh ↦
      rw (merge_locals, placed, fresh)
        (echo_kept (msgs ++ old ∷ []) olds failed old (own_echo msgs old mine))
]

-- No text that the user sent disappears: wherever an optimistic message stands in the old list, the
-- merged list has a message of the user with its text and, where it has a time, not two minutes older.
pub merge_locals-echo :
    (earlier msgs later : List Message) (failed : List (String × FailedSend)) (old : Message)
    → IsSent old
    → has_echo (merge_locals msgs (earlier ++ old ∷ later) failed).0 old ≡ true
unfolding merge_locals
merge_locals-echo (x ∷ earlier) msgs later failed old s = merge_locals-echo earlier _ later _ old s
merge_locals-echo [] msgs later failed old s = echo_head msgs later failed old s

-- The second of two optimistic messages of the user with one text, both with attachments or both
-- without, sent less than two minutes apart, is dropped with its failed mark although the server
-- echoes neither.
pub merge_locals_drops_twin :
    (msgs : List Message) (old twin : Message) (failed : List (String × FailedSend))
    → IsPending msgs old
    → IsPending msgs twin
    → old.is_from_me ≡ true
    → is_echo twin old ≡ true
    → merge_locals msgs (old ∷ twin ∷ []) failed ≡ (msgs ++ old ∷ [], delete twin.id failed)
unfolding merge_locals
merge_locals_drops_twin msgs old twin failed (p, q) (r, s) mine e =
    let twice : has_echo (msgs ++ old ∷ []) twin ≡ true =
      ground (arith, has_echo-append msgs (old ∷ []) twin) in
    rw (merge_locals, p, q, merge_locals, r, twice, merge_locals)
