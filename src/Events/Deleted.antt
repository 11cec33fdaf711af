-- ===== src/Events/Deleted.antt =====
-- internal/ui/wsevents.go: what is deleted is gone from everything that is shown.
use beeper_tui.Base.{
  ◌≡◌, ap, true, Bool-cases, inl, inr, String, ◌==◌, eq_iff, List, [], ◌∷◌, none, if◌then◌else◌,
  arith,
}
use beeper_tui.Platform.{Platform}
use beeper_tui.Api.{Message}
use beeper_tui.Model.{Model}
use beeper_tui.React.{member}
use beeper_tui.Nav.Frame.{messages-clamp_window}
use beeper_tui.Events.{Event, event_chat_id, apply_message_deleted, without}
use beeper_tui.Events.Upsert.{find_message}

find-without :
    (ids : List String) (msgs : List Message) (id : String)
    → find_message id (without ids msgs) ≡ (if member id ids then none else find_message id msgs)
find-without ids [] id = ground arith
find-without ids (x ∷ xs) id = elim (Bool-cases (x.id == id)) [
  | inl same ↦
      let e = (eq_iff x.id id).0 same in
      let agree : member x.id ids ≡ member id ids = ap (λ s. member s ids) e in
      ground (arith, find-without ids xs id)
  | inr other ↦ ground (arith, find-without ids xs id)
]

module _ ⦃platform : Platform⦄ where
  shown :
      (e : Event) (m : Model)
      → (m.current_chat_id == event_chat_id e) ≡ true
      → (apply_message_deleted e m).messages ≡ without e.ids m.messages
  unfolding apply_message_deleted
  shown e m h = rw (apply_message_deleted, h) (messages-clamp_window _)

  -- A deletion in the open conversation removes the messages with the IDs of the event and no other.
  pub find-apply_message_deleted :
      (e : Event) (m : Model) (id : String)
      → (m.current_chat_id == event_chat_id e) ≡ true
      → find_message id (apply_message_deleted e m).messages
        ≡ (if member id e.ids then none else find_message id m.messages)
  find-apply_message_deleted e m id h = rw (shown e m h) (find-without e.ids m.messages id)
