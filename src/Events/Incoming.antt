-- ===== src/Events/Incoming.antt =====
-- internal/ui/wsevents.go: what a live message does to the chat list: the unread counts, the order and
-- the selection.
use beeper_tui.Base.{
  ◌≡◌, ◌≢◌, refl, sym, ◌∙◌, ℕ, zero, suc, ◌+◌, Bool, Bool-cases, inl, inr, ◌||◌, ◌&&◌, List, [],
  ◌∷◌, Option-cases, none, some, if◌then◌else◌, arith, get_elem?, modify,
}
use beeper_tui.Platform.{Platform}
use beeper_tui.Api.{Chat, Message}
use beeper_tui.Model.{Model}
use beeper_tui.Sorting.{insert_chat, sort_chats}
use beeper_tui.Sorting.Order.{IsSorted, sort-IsSorted}
use beeper_tui.Sorting.Select.{chat_index_by_id_found}
use beeper_tui.Cache.{selected_id}
use beeper_tui.Nav.Chats.{chat_index_by_id}
use beeper_tui.Nav.Frame.{chats-clamp_window}
use beeper_tui.Events.{
  bump_chat, is_open, is_at_bottom, fold_message, apply_incoming_message, resort_keeping_selection,
  upsert_conversation_message, replace_placeholder,
}
use beeper_tui.Events.Selection.{selected_id-resort}

-- The sum of the unread counts.
abbrev pub total_unread : List Chat → ℕ
total_unread [] = 0
total_unread (c ∷ cs) = c.unread + total_unread cs

total_unread-insert :
    (c : Chat) (cs : List Chat) → total_unread (insert_chat c cs) ≡ c.unread + total_unread cs
unfolding insert_chat
total_unread-insert c [] = refl
total_unread-insert c (d ∷ ds) = ground (arith, total_unread-insert c ds)

total_unread-sort : (cs : List Chat) → total_unread (sort_chats cs) ≡ total_unread cs
unfolding sort_chats
total_unread-sort [] = refl
total_unread-sort (c ∷ cs) =
    omega (arith, total_unread-insert c (sort_chats cs), total_unread-sort cs)

-- What one message adds to the unread counts.
abbrev pub news : Bool → Message → ℕ
news read msg = if msg.is_from_me || read then 0 else 1

unread-bump :
    (msg : Message) (read : Bool) (c : Chat)
    → (bump_chat msg read c).unread ≡ c.unread + news read msg
unfolding bump_chat
unread-bump msg read c = ground arith

total_unread-modify :
    (msg : Message) (read : Bool) (cs : List Chat) (i : ℕ) (c : Chat)
    → get_elem? cs i ≡ some c
    → total_unread (modify cs i (bump_chat msg read)) ≡ total_unread cs + news read msg
total_unread-modify msg read [] i c e = absurd (ground arith)
total_unread-modify msg read (d ∷ ds) zero c e = omega (arith, unread-bump msg read d)
total_unread-modify msg read (d ∷ ds) (suc i) c e =
    omega (arith, total_unread-modify msg read ds i c e)

chats-upsert :
    (msg : Message) (b : Bool) (m : Model)
    → ((upsert_conversation_message msg b m).chats ≡ m.chats)
      × ((upsert_conversation_message msg b m).selected ≡ m.selected)
unfolding upsert_conversation_message
chats-upsert msg b m =
    elim (Option-cases (if msg.is_from_me then replace_placeholder msg m.messages else none)) [
      | inl new ↦ elim (Bool-cases b) [
        | inl bottom ↦ rw (upsert_conversation_message, new, bottom) (refl, refl)
        | inr above ↦ rw (upsert_conversation_message, new, above) (refl, refl)
      ]
      | inr ((id, msgs), placed) ↦ rw (upsert_conversation_message, placed) (refl, refl)
    ]

-- The message is read as it arrives: its conversation is open, at the bottom.
abbrev pub is_read_live : Message → Model → Bool
is_read_live msg m = is_open msg.chat_id m && is_at_bottom m

chats-fold :
    (idx : ℕ) (msg : Message) (m : Model)
    → ((fold_message idx msg m).chats ≡ modify m.chats idx (bump_chat msg (is_read_live msg m)))
      × ((fold_message idx msg m).selected ≡ m.selected)
unfolding fold_message
chats-fold idx msg m = elim (Bool-cases (is_open msg.chat_id m)) [
  | inl shown ↦ rw (fold_message, shown) (chats-upsert _ _ _)
  | inr hidden ↦ rw (fold_message, hidden) (refl, refl)
]

same_id :
    (msg : Message) (read : Bool) (cs : List Chat) (i j : ℕ) (c : Chat)
    → get_elem? cs j ≡ some c
    → (d : Chat) × (get_elem? (modify cs i (bump_chat msg read)) j ≡ some d) × (d.id ≡ c.id)
unfolding bump_chat
same_id msg read [] i j c e = absurd (ground arith)
same_id msg read (x ∷ xs) zero zero c e = (bump_chat msg read x, refl, ground arith)
same_id msg read (x ∷ xs) zero (suc j) c e = (c, e, refl)
same_id msg read (x ∷ xs) (suc i) zero c e = (c, e, refl)
same_id msg read (x ∷ xs) (suc i) (suc j) c e = same_id msg read xs i j c e

module _ ⦃platform : Platform⦄ where
  chats-resort : (m : Model) → (resort_keeping_selection m).chats ≡ sort_chats m.chats
  unfolding resort_keeping_selection
  chats-resort m = chats-clamp_window _

  folded :
      (msg : Message) (m : Model) (i : ℕ)
      → chat_index_by_id m.chats msg.chat_id ≡ some i
      → (apply_incoming_message msg m).0 ≡ resort_keeping_selection (fold_message i msg m)
  unfolding apply_incoming_message
  folded msg m i e = rw (apply_incoming_message, e) refl

  -- A live message for a known chat adds one to the unread counts, and adds nothing when the user sent
  -- it or it is read as it arrives; the list is sorted afterwards.
  pub apply_incoming_message-unread :
      (msg : Message) (m : Model) (i : ℕ)
      → chat_index_by_id m.chats msg.chat_id ≡ some i
      → (total_unread (apply_incoming_message msg m).0.chats
          ≡ total_unread m.chats + news (is_read_live msg m) msg)
        × IsSorted (apply_incoming_message msg m).0.chats
  apply_incoming_message-unread msg m i e =
      let (c, at, _) = chat_index_by_id_found m.chats msg.chat_id i e in
      let read = is_read_live msg m in
      rw (folded msg m i e, chats-resort (fold_message i msg m), (chats-fold i msg m).0)
        (
          total_unread-sort (modify m.chats i (bump_chat msg read))
              ∙ total_unread-modify msg read m.chats i c at,
          sort-IsSorted (modify m.chats i (bump_chat msg read)),
        )

  -- The selection stays on its chat when a live message moves the chats of the list.
  pub apply_incoming_message-selected :
      (msg : Message) (m : Model) (i : ℕ) (c : Chat)
      → chat_index_by_id m.chats msg.chat_id ≡ some i
      → get_elem? m.chats m.selected ≡ some c
      → c.id ≢ ""
      → selected_id (apply_incoming_message msg m).0 ≡ c.id
  apply_incoming_message-selected msg m i c e at ne =
      let (chats, selected) = chats-fold i msg m in
      let (d, at', same) = same_id msg (is_read_live msg m) m.chats i m.selected c at in
      let k = fold_message i msg m in
      let there : get_elem? k.chats k.selected ≡ some d = rw (chats, selected) at' in
      rw (folded msg m i e) (selected_id-resort k d there (λ p. ne (sym same ∙ p)) ∙ same)
