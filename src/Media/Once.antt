-- ===== src/Media/Once.antt =====
-- internal/ui/media.go: each preview is loaded once.
use beeper_tui.Base.{
  ◌≡◌, refl, ℕ, true, false, Bool, Bool-cases, inl, inr, not, ◌&&◌, String, eq_refl, List, [], ◌∷◌,
  if◌then◌else◌, arith, lookup, insert, lookup-insert, is_some,
}
use beeper_tui.Api.{Attachment, Message}
use beeper_tui.Model.{Model, MediaPreview}
use beeper_tui.View.{preview_key, previewable}
use beeper_tui.Media.{load_atts, load_msgs, load_previews, preview_cols, in_flight}

-- A map knows a key.
abbrev pub knows : List (String × MediaPreview) → String → Bool
knows previews key = is_some (lookup key previews)

-- Nothing of the message is left to load.
abbrev AttsDone : List (String × MediaPreview) → Message → List Attachment → Type 0
AttsDone previews msg [] = Unit
AttsDone previews msg (a ∷ atts) =
    ((previewable a && not (knows previews (preview_key msg a))) ≡ false)
    × AttsDone previews msg atts

-- A map that has the keys of another.
abbrev pub Grows : List (String × MediaPreview) → List (String × MediaPreview) → Type 0
Grows ps qs = (key : String) → knows ps key ≡ true → knows qs key ≡ true

pub Grows-insert :
    (ps : List (String × MediaPreview)) (key : String) (p : MediaPreview)
    → Grows ps (insert key p ps)
Grows-insert ps key p k h = ground (arith, lookup-insert key k p ps)

knows_new :
    (ps : List (String × MediaPreview)) (key : String) (p : MediaPreview)
    → knows (insert key p ps) key ≡ true
knows_new ps key p = ground (arith, lookup-insert key key p ps, eq_refl key)

done_mono :
    (ps qs : List (String × MediaPreview)) (msg : Message) (atts : List Attachment)
    → Grows ps qs
    → AttsDone ps msg atts
    → AttsDone qs msg atts
done_mono ps qs msg [] g h = tt
done_mono ps qs msg (a ∷ atts) g (d, h) =
    let key = preview_key msg a in
    (
      elim (Bool-cases (knows ps key)) [
        | inl known ↦ let later = g key known in ground arith
        | inr fresh ↦ ground arith
      ],
      done_mono ps qs msg atts g h,
    )

-- The map of one attachment's round.
abbrev after_att :
    Message → Attachment → List (String × MediaPreview) → List (String × MediaPreview)
after_att msg a ps =
    if previewable a && not (knows ps (preview_key msg a))
    then insert (preview_key msg a) in_flight ps
    else ps

att-Grows :
    (msg : Message) (a : Attachment) (ps : List (String × MediaPreview))
    → Grows ps (after_att msg a ps)
att-Grows msg a ps k h = elim (Bool-cases (previewable a && not (knows ps (preview_key msg a)))) [
  | inl fresh ↦ rw fresh (Grows-insert ps (preview_key msg a) in_flight k h)
  | inr old ↦ rw old h
]

att_done :
    (msg : Message) (a : Attachment) (ps : List (String × MediaPreview))
    → (previewable a && not (knows (after_att msg a ps) (preview_key msg a))) ≡ false
att_done msg a ps = elim (Bool-cases (previewable a && not (knows ps (preview_key msg a)))) [
  | inl fresh ↦
      let known = knows_new ps (preview_key msg a) in_flight in rw (fresh, known) (ground arith)
  | inr old ↦ rw (old, old) refl
]

atts_grow :
    (cols : ℕ) (msg : Message) (atts : List Attachment) (ps : List (String × MediaPreview))
    → Grows ps (load_atts cols msg atts ps).0
unfolding load_atts
atts_grow cols msg [] ps k h = h
atts_grow cols msg (a ∷ atts) ps k h =
    atts_grow cols msg atts (after_att msg a ps) k (att-Grows msg a ps k h)

atts_done :
    (cols : ℕ) (msg : Message) (atts : List Attachment) (ps : List (String × MediaPreview))
    → AttsDone (load_atts cols msg atts ps).0 msg atts
unfolding load_atts
atts_done cols msg [] ps = tt
atts_done cols msg (a ∷ atts) ps =
    let ps' = after_att msg a ps in
    let (d, _) =
      done_mono ps' (load_atts cols msg atts ps').0 msg (a ∷ []) (atts_grow cols msg atts ps')
        (att_done msg a ps, tt) in
    (d, atts_done cols msg atts ps')

-- With nothing left to load, no command is issued and the map stays.
atts_silent :
    (cols : ℕ) (msg : Message) (atts : List Attachment) (ps : List (String × MediaPreview))
    → AttsDone ps msg atts
    → load_atts cols msg atts ps ≡ (ps, [])
unfolding load_atts
atts_silent cols msg [] ps h = refl
atts_silent cols msg (a ∷ atts) ps (d, h) = rw (load_atts, d) (atts_silent cols msg atts ps h)

abbrev MsgsDone : List (String × MediaPreview) → List Message → Type 0
MsgsDone ps [] = Unit
MsgsDone ps (msg ∷ msgs) = AttsDone ps msg msg.attachments × MsgsDone ps msgs

msgs_mono :
    (ps qs : List (String × MediaPreview)) (msgs : List Message)
    → Grows ps qs
    → MsgsDone ps msgs
    → MsgsDone qs msgs
msgs_mono ps qs [] g h = tt
msgs_mono ps qs (msg ∷ msgs) g (d, h) =
    (done_mono ps qs msg msg.attachments g d, msgs_mono ps qs msgs g h)

msgs_grow :
    (cols : ℕ) (msgs : List Message) (ps : List (String × MediaPreview))
    → Grows ps (load_msgs cols msgs ps).0
unfolding load_msgs
msgs_grow cols [] ps k h = h
msgs_grow cols (msg ∷ msgs) ps k h =
    msgs_grow cols msgs (load_atts cols msg msg.attachments ps).0 k
      (atts_grow cols msg msg.attachments ps k h)

msgs_done :
    (cols : ℕ) (msgs : List Message) (ps : List (String × MediaPreview))
    → MsgsDone (load_msgs cols msgs ps).0 msgs
unfolding load_msgs
msgs_done cols [] ps = tt
msgs_done cols (msg ∷ msgs) ps =
    let ps' = (load_atts cols msg msg.attachments ps).0 in
    (
      done_mono ps' (load_msgs cols msgs ps').0 msg msg.attachments (msgs_grow cols msgs ps')
          (atts_done cols msg msg.attachments ps),
      msgs_done cols msgs ps',
    )

msgs_silent :
    (cols : ℕ) (msgs : List Message) (ps : List (String × MediaPreview))
    → MsgsDone ps msgs
    → load_msgs cols msgs ps ≡ (ps, [])
unfolding load_msgs
msgs_silent cols [] ps h = refl
msgs_silent cols (msg ∷ msgs) ps (d, h) =
    rw (load_msgs, atts_silent cols msg msg.attachments ps d, msgs_silent cols msgs ps h) refl

-- A later state of the same messages whose map has at least the keys that loading marked starts no
-- load.
pub load_previews-silent :
    (m k : Model)
    → k.messages ≡ m.messages
    → k.width ≡ m.width
    → Grows (load_previews m).0.media_previews k.media_previews
    → load_previews k ≡ (k, [])
unfolding load_previews
load_previews-silent m k same wide grows =
    let cols = preview_cols m.width in
    let done =
      msgs_mono (load_msgs cols m.messages m.media_previews).0 k.media_previews m.messages grows
        (msgs_done cols m.messages m.media_previews) in
    rw (same, wide, msgs_silent cols m.messages k.media_previews done) refl
