-- ===== src/Socket/Lifecycle.antt =====
-- internal/ws/client.go: the order of the events that the client emits.
use beeper_tui.Base.{
  ◌≡◌, refl, sym, ap, ◌∙◌, ℕ, Bool, true, false, String, ◌==◌, List, [], ◌∷◌, ◌++◌, Option, none,
  some, Result, ok, error, arith, eq_iff, if◌then◌else◌, Bool-cases, Option-cases, inl, inr,
}
use beeper_tui.Socket.Frames.{
  Event, Frame, WireFrame, Json, ready, event, subscriptions_updated, server_error, decode_frame,
  frame_of, frame_of_wire, is_domain, event_connecting, event_connected, event_disconnected,
}
use beeper_tui.Socket.{
  Client, Phase, Label, Step, Run, starting, dialing, reading, sending, waiting, stopped, panicked,
  delay_at, end_session, on_frame, set_subscriptions, begin, then_step, counted, state_event,
}

-- What a reader of the events knows: no connection, one that is being made, or one that is established.
pub data Stage : Type 0 where
  off : Stage
  trying : Stage
  on : Stage

abbrev is_off : Stage → Bool
is_off off = true
is_off trying = false
is_off on = false

-- The event that may come next, and the stage after it. An event of the server needs a connection.
abbrev pub next_stage : String → Stage → Option Stage
next_stage type st =
    if type == event_connecting
    then (if is_off st then some trying else none)
    else if is_off st
    then none
    else if type == event_connected
    then some on
    else if type == event_disconnected
    then some off
    else some st

abbrev and_then : Option Stage → (Stage → Option Stage) → Option Stage
and_then none f = none
and_then (some st) f = f st

unfoldable pub stage_after : Stage → List Event → Option Stage
stage_after st [] = some st
stage_after st (e ∷ es) = and_then (next_stage e.type st) (λ st'. stage_after st' es)

and_then-some : (o : Option Stage) → and_then o some ≡ o
and_then-some none = refl
and_then-some (some st) = refl

stage_after-append :
    (st : Stage) (es : List Event) (e : Event)
    → stage_after st (es ++ e ∷ []) ≡ and_then (stage_after st es) (next_stage e.type)
unfolding stage_after
stage_after-append st [] e = and_then-some (next_stage e.type st)
stage_after-append st (x ∷ es) e = elim (Option-cases (next_stage x.type st)) [
  | inl bad ↦ rw (stage_after, bad) refl
  | inr (st', step) ↦ rw (stage_after, step) (stage_after-append st' es e)
]

-- The stage of a phase, any for a client that has ended.
unfoldable pub Fits : Phase → Stage → Type 0
Fits starting st = st ≡ off
Fits dialing st = st ≡ trying
Fits (reading b) st = st ≡ (if b then on else trying)
Fits (sending b cmd) st = st ≡ (if b then on else trying)
Fits (waiting d) st = st ≡ off
Fits stopped st = Unit
Fits panicked st = Unit

domain_lem :
    (t : String) → is_domain t ≡ true → (st : Stage) → is_off st ≡ false → next_stage t st ≡ some st
domain_lem t h st up = elim (Bool-cases (t == "message.upserted")) [
  | inl a ↦ let same : t ≡ "message.upserted" = (eq_iff _ _).0 a in rw (same, up) refl
  | inr na ↦ elim (Bool-cases (t == "message.deleted")) [
    | inl b ↦ let same : t ≡ "message.deleted" = (eq_iff _ _).0 b in rw (same, up) refl
    | inr nb ↦ elim (Bool-cases (t == "chat.upserted")) [
      | inl c ↦ let same : t ≡ "chat.upserted" = (eq_iff _ _).0 c in rw (same, up) refl
      | inr nc ↦
          let last : (t == "chat.deleted") ≡ true = ground (arith, h, na, nb, nc) in
          let same : t ≡ "chat.deleted" = (eq_iff _ _).0 last in rw (same, up) refl
    ]
  ]
]

connecting_lem : (st : Stage) → st ≡ off → next_stage event_connecting st ≡ some trying
connecting_lem st at = rw (at) refl

connected_lem : (st : Stage) → is_off st ≡ false → next_stage event_connected st ≡ some on
connected_lem st running = rw (running) refl

disconnect_lem : (st : Stage) → is_off st ≡ false → next_stage event_disconnected st ≡ some off
disconnect_lem st running = rw (running) refl

-- The reader of what was emitted is at a stage that fits the phase.
abbrev pub IsInStage : Client → Type 0
IsInStage c = (st : Stage) × (stage_after off c.emitted ≡ some st) × Fits c.phase st

-- One more event takes the reader to the stage of the new phase.
emit-IsInStage :
    (es : List Event) (e : Event) (st st' : Stage)
    → stage_after off es ≡ some st
    → next_stage e.type st ≡ some st'
    → stage_after off (es ++ e ∷ []) ≡ some st'
emit-IsInStage es e st st' h n =
    stage_after-append off es e ∙ ap (λ o. and_then o (next_stage e.type)) h ∙ n

abbrev up : Bool → Stage
up b = if b then on else trying

is_off-up : (b : Bool) → is_off (up b) ≡ false
is_off-up true = refl
is_off-up false = refl

Fits-same : (ph ph' : Phase) (st : Stage) → ph ≡ ph' → Fits ph st → Fits ph' st
Fits-same ph ph' st same f = rw (sym same) f

-- A decoded frame is no change of the connection.
abbrev is_domain_frame : Result Frame → Bool
is_domain_frame (error e) = true
is_domain_frame (ok (ready v ids)) = true
is_domain_frame (ok (subscriptions_updated id ids)) = true
is_domain_frame (ok (server_error id code message)) = true
is_domain_frame (ok (event e)) = is_domain e.type

module _ ⦃json : Json⦄ where
  is_domain_frame-frame_of : (f : WireFrame) → is_domain_frame (frame_of f) ≡ true
  unfolding frame_of
  is_domain_frame-frame_of f = elim (Bool-cases (f.type == "ready")) [
    | inl a ↦ rw (frame_of, a) refl
    | inr na ↦ elim (Bool-cases (f.type == "subscriptions.updated")) [
      | inl b ↦ rw (frame_of, na, b) refl
      | inr nb ↦ elim (Bool-cases (f.type == "error")) [
        | inl c ↦ rw (frame_of, na, nb, c) refl
        | inr nc ↦ elim (Bool-cases (is_domain f.type)) [
          | inl d ↦ rw (frame_of, na, nb, nc, d) d
          | inr nd ↦ rw (frame_of, na, nb, nc, nd) refl
        ]
      ]
    ]
  ]

  is_domain_frame-frame_of_wire : (r : Result WireFrame) → is_domain_frame (frame_of_wire r) ≡ true
  is_domain_frame-frame_of_wire (error e) = refl
  is_domain_frame-frame_of_wire (ok f) = is_domain_frame-frame_of f

  is_domain_frame-decode_frame : (text : String) → is_domain_frame (decode_frame text) ≡ true
  unfolding decode_frame
  is_domain_frame-decode_frame text = is_domain_frame-frame_of_wire (json.decode_wire text)

  on_frame-IsInStage :
      (b : Bool) (r : Result Frame) (c : Client)
      → c.phase ≡ reading b
      → is_domain_frame r ≡ true
      → IsInStage c
      → IsInStage (on_frame b r c)
  unfolding on_frame Fits
  on_frame-IsInStage b (error e) c p d h = h
  on_frame-IsInStage b (ok (ready v ids)) c p d (st, es, fits) =
      (st, es, Fits-same c.phase (reading b) st p fits)
  on_frame-IsInStage b (ok (subscriptions_updated id ids)) c p d h = h
  on_frame-IsInStage b (ok (server_error id code message)) c p d h = h
  on_frame-IsInStage b (ok (event e)) c p d (st, es, fits) = (
    st,
    emit-IsInStage c.emitted e st st es (
        domain_lem e.type d st (ap is_off (Fits-same c.phase (reading b) st p fits) ∙ is_off-up b)),
    fits,
  )

  end_session-IsInStage :
      (b : Bool) (err : String) (c : Client) (st : Stage)
      → stage_after off c.emitted ≡ some st
      → is_off st ≡ false
      → IsInStage (end_session b err c)
  unfolding end_session Fits
  end_session-IsInStage b err c st es running =
      elim (Option-cases (delay_at c.backoff (counted b c.attempt))) [
        | inl none_left ↦ rw (end_session, none_left) (st, es, tt)
        | inr (d, found) ↦
            rw (end_session, found)
              (
                off,
                emit-IsInStage c.emitted (state_event event_disconnected (some err) d) st off es
                    (disconnect_lem st running),
                refl,
              )
      ]

  set_chats-IsInStage :
      (ids : List String) (c : Client) → IsInStage c → IsInStage (set_subscriptions ids c)
  unfolding set_subscriptions
  set_chats-IsInStage ids c h = elim (Option-cases c.conn) [
    | inl missing ↦ rw (set_subscriptions, missing) h
    | inr (n, there) ↦ rw (set_subscriptions, there) h
  ]

  step-IsInStage : (c c' : Client) (l : Label) → IsInStage c → Step c l c' → IsInStage c'
  unfolding Fits
  step-IsInStage c c' l (st, es, f) (Step.start _ p) =
      let at = Fits-same c.phase starting st p f in
      (trying, emit-IsInStage c.emitted _ st trying es (connecting_lem st at), refl)
  step-IsInStage c c' l (st, es, f) (Step.dial_fails _ e p) =
      end_session-IsInStage false e c st es (ap is_off (Fits-same c.phase dialing st p f))
  step-IsInStage c c' l (st, es, f) (Step.dial_works _ p) =
      (st, es, Fits-same c.phase dialing st p f)
  step-IsInStage c c' l (st, es, f) (Step.read_fails b _ e p) =
      end_session-IsInStage b e c st es
        (ap is_off (Fits-same c.phase (reading b) st p f) ∙ is_off-up b)
  step-IsInStage c c' l h (Step.read_frame b _ text p) =
      on_frame-IsInStage b (decode_frame text) c p (is_domain_frame-decode_frame text) h
  step-IsInStage c c' l (st, es, f) (Step.write_fails b cmd _ e p) =
      end_session-IsInStage b e c st es
        (ap is_off (Fits-same c.phase (sending b cmd) st p f) ∙ is_off-up b)
  step-IsInStage c c' l (st, es, f) (Step.write_works b cmd _ p) =
      let running = ap is_off (Fits-same c.phase (sending b cmd) st p f) ∙ is_off-up b in
      (on, emit-IsInStage c.emitted _ st on es (connected_lem st running), refl)
  step-IsInStage c c' l (st, es, f) (Step.timer w _ p) =
      (st, es, Fits-same c.phase (waiting w) st p f)
  step-IsInStage c c' l (st, es, f) (Step.retry_wakes w _ p r) =
      (st, es, Fits-same c.phase (waiting w) st p f)
  step-IsInStage c c' l h (Step.retry _) = h
  step-IsInStage c c' l h (Step.set_chats ids _ w) = set_chats-IsInStage ids c h
  step-IsInStage c c' l h (Step.writer_takes n _ w) = h
  step-IsInStage c c' l h (Step.writer_works n cmd _ w o) = h
  step-IsInStage c c' l h (Step.writer_fails n cmd _ w) = h
  step-IsInStage c c' l (st, es, f) (Step.close _) = (st, es, tt)

  -- After every run of the client the events it has emitted can be read as connecting, then
  -- connected any number of times, then disconnected, over and over, with the events of the server
  -- only between connecting and disconnected. Whether the reader knows of no connection, of one that
  -- is being made or of an established one fits what the client is doing.
  pub run-IsInStage :
      (backoff : List ℕ) (ls : List Label) (c : Client) → Run backoff ls c → IsInStage c
  unfolding stage_after Fits
  run-IsInStage backoff ls c begin = (off, refl, refl)
  run-IsInStage backoff ls c (then_step {c = c0} r s) =
      step-IsInStage c0 c _ (run-IsInStage backoff _ c0 r) s
