-- ===== src/Cards/Sweep/Bounds.antt =====
-- internal/person/sweep.go: the bounds of the sweep.
use beeper_tui.Base.{
  ◌≡◌, ◌∙◌, ℕ, zero, suc, ◌-◌, ◌≤◌, List, [], ◌∷◌, Result, ok, error, length, drop, leb, ltb, arith,
  length-append, Bool-cases, inl, inr, Option-cases,
}
use beeper_tui.Platform.{Platform}
use beeper_tui.Api.{Message}
use beeper_tui.Identity.Person.{Person, ChatRef}
use beeper_tui.Cards.{Yaml}
use beeper_tui.Cards.Store.{Store}
use beeper_tui.Cards.Sweep.{
  SweepApi, gather, last_messages, with_part, sweep_message_cap, sweep_targets, sweep_person,
  due_card,
}

length-drop : (n : ℕ) (xs : List Message) → length (drop n xs) ≡ length xs - n
length-drop zero xs = omega arith
length-drop (suc n) [] = omega arith
length-drop (suc n) (x ∷ xs) = length-drop n xs ∙ omega arith

length-last_messages : (room : ℕ) (part : List Message) → length (last_messages room part) ≤ room
length-last_messages room part = elim (Bool-cases (ltb room (length part))) [
  | inl more ↦ rw (more, length-drop (length part - room) part) ground arith
  | inr fits ↦ rw (fits) ground arith
]

length-with_part :
    (msgs : List Message) (r : Result (List Message))
    → length msgs ≤ sweep_message_cap
    → length (with_part msgs r) ≤ sweep_message_cap
length-with_part msgs (error e) h = h
length-with_part msgs (ok part) h =
    rw (length-append msgs (last_messages (sweep_message_cap - length msgs) part))
      (omega (arith, length-last_messages (sweep_message_cap - length msgs) part))

module _ ⦃api : SweepApi⦄ where
  -- However many messages the chats hold, at most 80 of them are read for one person.
  pub length-gather :
      (n : ℕ) (refs : List ChatRef) (msgs : List Message)
      → length msgs ≤ sweep_message_cap
      → length (gather n refs msgs) ≤ sweep_message_cap
  unfolding gather
  length-gather zero refs msgs h = h
  length-gather (suc n) [] msgs h = h
  length-gather (suc n) (ref ∷ refs) msgs h =
      elim (Bool-cases (leb sweep_message_cap (length msgs))) [
        | inl full ↦ rw (gather, full) h
        | inr room ↦
            rw (gather, room)
              (length-gather n refs (with_part msgs (api.list_messages ref.id))
                (length-with_part msgs (api.list_messages ref.id) h))
      ]

  module _ ⦃platform : Platform⦄ ⦃yaml : Yaml⦄ where
    -- A sweep extracts from at most as many people as it was asked for.
    pub sweep_targets-count :
        (i room : ℕ) (ts : List Person) (store : Store) → (sweep_targets i room ts store).1 ≤ room
    unfolding sweep_targets
    sweep_targets-count i room [] store = omega arith
    sweep_targets-count i zero (t ∷ ts) store = omega arith
    sweep_targets-count i (suc room) (t ∷ ts) store = elim (Bool-cases (api.cancelled i)) [
      | inl stop ↦ rw (sweep_targets, stop) omega arith
      | inr go_on ↦ elim (Option-cases (due_card t store)) [
        | inl skip ↦
            rw (sweep_targets, go_on, skip) (sweep_targets-count (suc i) (suc room) ts store)
        | inr (card, due) ↦
            rw (sweep_targets, go_on, due)
              (omega (arith, sweep_targets-count (suc i) room ts (sweep_person t card store)))
      ]
    ]
