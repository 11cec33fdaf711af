-- ===== src/Socket/Schedule.antt =====
-- internal/ws/client.go: the delays of `run`, against a schedule that is used up from the front.
use beeper_tui.Base.{
  ◌≡◌, refl, sym, ap, ◌∙◌, ℕ, zero, suc, ◌-◌, Bool, true, false, String, List, [], ◌∷◌, ◌++◌,
  Option, none, some, Result, ok, error, arith, if◌then◌else◌, ltb, length, get_elem?, Option-cases,
  inl, inr,
}
use beeper_tui.Socket.Frames.{
  Frame, Event, Json, event_disconnected, ready, event, subscriptions_updated, server_error,
  decode_frame,
}
use beeper_tui.Socket.{
  Client, Phase, Label, ended, waited, retried, closed, silent, announced_in, state_event, Step,
  Run, starting, dialing, reading, sending, waiting, stopped, panicked, delay_at, end_session,
  counted, ended_with, on_frame, set_subscriptions, begin, then_step,
}

-- What is left of a schedule after its first delay; the last one stays.
abbrev pub advance : List ℕ → List ℕ
advance [] = []
advance (d ∷ []) = d ∷ []
advance (d ∷ e ∷ ds) = e ∷ ds

abbrev pub head : List ℕ → Option ℕ
head [] = none
head (d ∷ ds) = some d

-- What a reconnect loop promises, of the delays that are left and the wait that is due: each failure
-- announces the first delay that is left and makes it due, and a session that was established, or a
-- retry, starts the schedule anew. A wait is as long as the one that is due.
pub data SpecStep (schedule : List ℕ) : List ℕ × Option ℕ → Label → List ℕ × Option ℕ → Type 0 where
  fails :
      (left : List ℕ) (d : ℕ)
      → head left ≡ some d
      → SpecStep schedule (left, none) (ended false (some d)) (advance left, some d)
  drops :
      (left : List ℕ) (d : ℕ)
      → head schedule ≡ some d
      → SpecStep schedule (left, none) (ended true (some d)) (advance schedule, some d)
  waits : (left : List ℕ) (d : ℕ) → SpecStep schedule (left, some d) (waited d) (left, none)
  restarts : (left : List ℕ) (d : ℕ) → SpecStep schedule (left, some d) retried (schedule, none)
  closes : (left : List ℕ) (due : Option ℕ) → SpecStep schedule (left, due) closed (left, none)
  idles : (left : List ℕ) (due : Option ℕ) → SpecStep schedule (left, due) silent (left, due)

pub data SpecRun (schedule : List ℕ) : List Label → List ℕ × Option ℕ → Type 0 where
  fresh : SpecRun schedule [] (schedule, none)
  after :
      {ls : List Label} {l : Label} {at at' : List ℕ × Option ℕ}
      → SpecRun schedule ls at
      → SpecStep schedule at l at'
      → SpecRun schedule (l ∷ ls) at'

-- The schedule after some failures in a row.
unfoldable pub left_after : ℕ → List ℕ → List ℕ
left_after zero s = s
left_after (suc n) s = left_after n (advance s)

advance-left_after : (n : ℕ) (s : List ℕ) → advance (left_after n s) ≡ left_after (suc n) s
unfolding left_after
advance-left_after zero s = refl
advance-left_after (suc n) s = advance-left_after n (advance s)

abbrev is_panicked : Phase → Bool
is_panicked panicked = true
is_panicked starting = false
is_panicked dialing = false
is_panicked (reading b) = false
is_panicked (sending b cmd) = false
is_panicked (waiting d) = false
is_panicked stopped = false

abbrev capped : ℕ → ℕ → ℕ
capped n len = if ltb n (len - 1) then n else len - 1

capped_one : (n : ℕ) → capped n 1 ≡ 0
capped_one n = ground arith

capped_zero : (m : ℕ) → capped 0 (suc m) ≡ 0
capped_zero m = ground arith

capped-suc : (n m : ℕ) → capped (suc n) (suc (suc m)) ≡ suc (capped n (suc m))
capped-suc n m = ground arith

-- The index that `run` computes finds the first delay that is left.
delay_lem : (n d : ℕ) (ds : List ℕ) → delay_at (d ∷ ds) n ≡ head (left_after n (d ∷ ds))
unfolding delay_at left_after
delay_lem zero d ds = ap (get_elem? (d ∷ ds)) (capped_zero (length ds))
delay_lem (suc n) d [] =
    ap (get_elem? (d ∷ [])) (capped_one (suc n) ∙ sym (capped_one n)) ∙ delay_lem n d []
delay_lem (suc n) d (e ∷ ds) =
    ap (get_elem? (d ∷ e ∷ ds)) (capped-suc n (length ds)) ∙ delay_lem n e ds

head_lem : (n d : ℕ) (ds : List ℕ) → (e : ℕ) × (head (left_after n (d ∷ ds)) ≡ some e)
unfolding left_after
head_lem zero d ds = (d, refl)
head_lem (suc n) d [] = head_lem n d []
head_lem (suc n) d (e ∷ ds) = head_lem n e ds

-- The wait that a client is in.
abbrev due_of : Phase → Option ℕ
due_of starting = none
due_of dialing = none
due_of (reading b) = none
due_of (sending b cmd) = none
due_of (waiting d) = some d
due_of stopped = none
due_of panicked = none

-- What a client has left of a schedule, and the wait that it is in.
unfoldable pub view : List ℕ → Client → List ℕ × Option ℕ
view s c = (left_after c.attempt s, due_of c.phase)

-- The client keeps its schedule and is not in a panic.
Holds : List ℕ → Client → Type 0
Holds s c = (c.backoff ≡ s) × (is_panicked c.phase ≡ false)

-- A step of the client is one of the promise.
Refines : List ℕ → Client → Label → Client → Type 0
Refines s c l c' = SpecStep s (view s c) l (view s c') × Holds s c'

announced_last :
    (d : Option ℕ) (es : List Event) (e : Event) → announced_in d (es ++ e ∷ []) ≡ some e.retry_in
announced_last d [] e = refl
announced_last d (x ∷ es) e = announced_last (some x.retry_in) es e

spec_end :
    (b : Bool) (n : ℕ) (s : List ℕ) (e : ℕ)
    → head (left_after (counted b n) s) ≡ some e
    → SpecStep s
        (left_after n s, none)
        (ended b (some e))
        (left_after (suc (counted b n)) s, some e)
unfolding left_after
spec_end true n s e h = SpecStep.drops (left_after n s) e h
spec_end false n s e h = rw (sym (advance-left_after n s)) (SpecStep.fails (left_after n s) e h)

end_session-Refines :
    (b : Bool) (err : String) (c : Client) (ph : Phase) (d : ℕ) (ds : List ℕ)
    → c.phase ≡ ph
    → due_of ph ≡ none
    → Holds (d ∷ ds) c
    → Refines (d ∷ ds) c (ended_with b (end_session b err c)) (end_session b err c)
unfolding end_session Refines Holds view
end_session-Refines b err c ph d ds p free h =
    let (e, here) = head_lem (counted b c.attempt) d ds in
    let now : delay_at c.backoff (counted b c.attempt) ≡ some e =
      ap (λ s. delay_at s (counted b c.attempt)) h.0
      ∙ delay_lem (counted b c.attempt) d ds
      ∙ here in
    let idle : due_of c.phase ≡ none = ap due_of p ∙ free in
    rw
      (
        end_session,
        now,
        idle,
        announced_last none c.emitted (state_event event_disconnected (some err) e),
      )
      (spec_end b c.attempt (d ∷ ds) e here, (h.0, refl))

-- A step that leaves the schedule and the wait alone.
idle_step :
    (s : List ℕ) (c c' : Client)
    → c'.attempt ≡ c.attempt
    → due_of c'.phase ≡ due_of c.phase
    → Holds s c'
    → Refines s c silent c'
unfolding Refines Holds view
idle_step s c c' same due h =
    rw (same, due) (SpecStep.idles (left_after c.attempt s) (due_of c.phase), h)

-- A wait that ends by itself.
waited_step :
    (s : List ℕ) (d : ℕ) (c c' : Client)
    → c'.attempt ≡ c.attempt
    → c.phase ≡ waiting d
    → due_of c'.phase ≡ none
    → Holds s c'
    → Refines s c (waited d) c'
unfolding Refines Holds view
waited_step s d c c' same p over h =
    rw (same, p, over) (SpecStep.waits (left_after c.attempt s) d, h)

retried_step :
    (s : List ℕ) (d : ℕ) (c c' : Client)
    → c'.attempt ≡ 0
    → c.phase ≡ waiting d
    → due_of c'.phase ≡ none
    → Holds s c'
    → Refines s c retried c'
unfolding Refines Holds left_after view
retried_step s d c c' same p over h =
    rw (same, p, over) (SpecStep.restarts (left_after c.attempt s) d, h)

closed_step :
    (s : List ℕ) (c c' : Client)
    → c'.attempt ≡ c.attempt
    → due_of c'.phase ≡ none
    → Holds s c'
    → Refines s c closed c'
unfolding Refines Holds view
closed_step s c c' same over h =
    rw (same, over) (SpecStep.closes (left_after c.attempt s) (due_of c.phase), h)

module _ ⦃json : Json⦄ where
  frame-Refines :
      (s : List ℕ) (b : Bool) (r : Result Frame) (c : Client)
      → c.phase ≡ reading b
      → Holds s c
      → Refines s c silent (on_frame b r c)
  unfolding on_frame Holds
  frame-Refines s b (error e) c p h = idle_step s c _ refl refl h
  frame-Refines s b (ok (ready version ids)) c p h =
      idle_step s c _ refl (sym (ap due_of p)) (h.0, refl)
  frame-Refines s b (ok (subscriptions_updated id ids)) c p h = idle_step s c _ refl refl h
  frame-Refines s b (ok (server_error id code message)) c p h = idle_step s c _ refl refl h
  frame-Refines s b (ok (event e)) c p h = idle_step s c _ refl refl h

  set_chats_frame :
      (ids : List String) (c : Client)
      → let c' = set_subscriptions ids c in
        (c'.attempt ≡ c.attempt) × (c'.backoff ≡ c.backoff) × (c'.phase ≡ c.phase)
  unfolding set_subscriptions
  set_chats_frame ids c = elim (Option-cases c.conn) [
    | inl missing ↦ rw (set_subscriptions, missing) (refl, refl, refl)
    | inr (n, there) ↦ rw (set_subscriptions, there) (refl, refl, refl)
  ]

  set_chats-Refines :
      (s : List ℕ) (ids : List String) (c : Client)
      → Holds s c
      → Refines s c silent (set_subscriptions ids c)
  unfolding Holds
  set_chats-Refines s ids c h =
      let (same, schedule, phase) = set_chats_frame ids c in
      idle_step s c (set_subscriptions ids c) same (ap due_of phase)
        (schedule ∙ h.0, ap is_panicked phase ∙ h.1)

  step-Refines :
      (d : ℕ) (ds : List ℕ) (c c' : Client) (l : Label)
      → Holds (d ∷ ds) c
      → Step c l c'
      → Refines (d ∷ ds) c l c'
  unfolding Holds
  step-Refines d ds c c' l h (Step.start _ p) =
      idle_step (d ∷ ds) c _ refl (sym (ap due_of p)) (h.0, refl)
  step-Refines d ds c c' l h (Step.dial_fails _ e p) =
      end_session-Refines false e _ dialing d ds p refl h
  step-Refines d ds c c' l h (Step.dial_works _ p) =
      idle_step (d ∷ ds) c _ refl (sym (ap due_of p)) (h.0, refl)
  step-Refines d ds c c' l h (Step.read_fails b _ e p) =
      end_session-Refines b e _ (reading b) d ds p refl h
  step-Refines d ds c c' l h (Step.read_frame b _ text p) =
      frame-Refines _ b (decode_frame text) _ p h
  step-Refines d ds c c' l h (Step.write_fails b cmd _ e p) =
      end_session-Refines b e _ (sending b cmd) d ds p refl h
  step-Refines d ds c c' l h (Step.write_works b cmd _ p) =
      idle_step (d ∷ ds) c _ refl (sym (ap due_of p)) (h.0, refl)
  step-Refines d ds c c' l h (Step.timer w _ p) = waited_step (d ∷ ds) w c _ refl p refl (h.0, refl)
  step-Refines d ds c c' l h (Step.retry_wakes w _ p r) =
      retried_step (d ∷ ds) w c _ refl p refl (h.0, refl)
  step-Refines d ds c c' l h (Step.retry _) = idle_step (d ∷ ds) c _ refl refl h
  step-Refines d ds c c' l h (Step.set_chats ids _ w) = set_chats-Refines _ ids _ h
  step-Refines d ds c c' l h (Step.writer_takes n _ w) = idle_step (d ∷ ds) c _ refl refl h
  step-Refines d ds c c' l h (Step.writer_works n cmd _ w o) = idle_step (d ∷ ds) c _ refl refl h
  step-Refines d ds c c' l h (Step.writer_fails n cmd _ w) = idle_step (d ∷ ds) c _ refl refl h
  step-Refines d ds c c' l h (Step.close _) = closed_step (d ∷ ds) c _ refl refl (h.0, refl)

  run-Holds :
      (d : ℕ) (ds : List ℕ) (ls : List Label) (c : Client) → Run (d ∷ ds) ls c → Holds (d ∷ ds) c
  unfolding Holds Refines
  run-Holds d ds ls c begin = (refl, refl)
  run-Holds d ds ls c (then_step {c = c0} r s) =
      (step-Refines d ds c0 c _ (run-Holds d ds _ c0 r) s).1

  -- For every schedule that is not empty, whatever happens to the connection and whatever is
  -- called, the client waits as promised: after a failure it announces a delay and is then in a wait
  -- of that delay. The delays are taken from the front of the schedule, the last one repeats, and an
  -- established session or a retry starts it anew.
  pub run-SpecRun :
      (d : ℕ) (ds : List ℕ) (ls : List Label) (c : Client)
      → Run (d ∷ ds) ls c
      → SpecRun (d ∷ ds) ls (view (d ∷ ds) c)
  unfolding left_after Refines view
  run-SpecRun d ds ls c begin = SpecRun.fresh
  run-SpecRun d ds ls c (then_step {c = c0} r s) =
      SpecRun.after (run-SpecRun d ds _ c0 r) (step-Refines d ds c0 c _ (run-Holds d ds _ c0 r) s).0
