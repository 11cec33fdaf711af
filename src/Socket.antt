-- ===== src/Socket.antt =====
-- internal/ws/client.go: the client of the live events, as a step relation. A step is one action of the
-- loop `run`, of the server, of the clock or of a caller; what was sent and emitted so far is kept.
pub mod Frames
pub mod Schedule
pub mod Lifecycle
pub mod Subscriptions
use beeper_tui.Base.{
  ◌≡◌, ℕ, zero, suc, ◌-◌, Bool, true, false, String, List, [], ◌∷◌, ◌++◌, Option, none, some,
  Result, ok, error, if◌then◌else◌, ltb, length, get_elem?, texts,
}
use beeper_tui.Platform.{Platform}
use beeper_tui.Socket.Frames.{
  Event, Frame, Json, ready, event, decode_frame, event_connecting, event_connected,
  event_disconnected,
}

-- `subscriptionsSet`.
pub record Command : Type 0 where
  pub request_id : ℕ
  pub chat_ids : List String

-- Where `run` is: about to emit "connecting", in `websocket.Dial`, in `conn.Read`, in
-- `wsjson.Write` with a command, in the backoff, returned, or in a panic. A session carries its
-- local `connected`.
pub data Phase : Type 0 where
  starting : Phase
  dialing : Phase
  reading : Bool → Phase
  sending : Bool → Command → Phase
  waiting : ℕ → Phase
  stopped : Phase
  panicked : Phase

-- A call of `SetSubscriptions` with the session it took its connection from: between the two locked
-- regions, and in `wsjson.Write`.
pub data Writer : Type 0 where
  called : ℕ → Writer
  writing : ℕ → Command → Writer

-- `Client`. The connection is known by the number of its session, none for nil; `writer` is the call of
-- `SetSubscriptions` that is under way. `wire` is what was written on the present connection.
pub record Client : Type 0 where
  pub backoff : List ℕ
  pub phase : Phase
  pub attempt : ℕ
  pub retry_pending : Bool
  pub session : ℕ
  pub conn : Option ℕ
  pub chat_ids : List String
  pub req_seq : ℕ
  pub writer : Option Writer
  pub wire : List Command
  pub emitted : List Event

-- `New`, before the loop runs.
abbrev pub new : List ℕ → Client
new backoff = record {
  backoff = backoff;
  phase = starting;
  attempt = 0;
  retry_pending = false;
  session = 0;
  conn = none;
  chat_ids = "*" ∷ [];
  req_seq = 0;
  writer = none;
  wire = [];
  emitted = [];
}

-- `defaultBackoff`, in seconds.
abbrev pub default_backoff : List ℕ
default_backoff = 1 ∷ 2 ∷ 4 ∷ 8 ∷ 16 ∷ 30 ∷ []

-- An event of a change of the connection.
abbrev pub state_event : String → Option String → ℕ → Event
state_event type err retry_in = record {
  type = type;
  seq = 0;
  ts = 0;
  account_id = "";
  chat_id = "";
  ids = [];
  entries = [];
  err = err;
  retry_in = retry_in;
}

-- `emit`.
abbrev pub emit : Event → Client → Client
emit e c = record c { emitted = c.emitted ++ e ∷ [] }

-- `c.backoff[min(attempt, len(c.backoff)-1)]`, none where the schedule is empty and the index is -1.
unfoldable pub delay_at : List ℕ → ℕ → Option ℕ
delay_at backoff attempt =
    get_elem? backoff (if ltb attempt (length backoff - 1) then attempt else length backoff - 1)

abbrev pub counted : Bool → ℕ → ℕ
counted connected attempt = if connected then 0 else attempt

-- The rest of an iteration of `run`, after a session that failed.
unfoldable pub end_session : Bool → String → Client → Client
unfolding delay_at
end_session connected err c =
    let n = counted connected c.attempt in
    elim (delay_at c.backoff n) [
      | none ↦ record c { phase = panicked; conn = none; attempt = n }
      | some d ↦
          emit (state_event event_disconnected (some err) d)
            (record c { phase = waiting d; conn = none; attempt = suc n })
    ]

-- The locked part of `sendSubscriptions`: the command, and the client that has counted it.
abbrev pub next_command : Client → Command
next_command c = record { request_id = suc c.req_seq; chat_ids = c.chat_ids }

-- `SetSubscriptions`, up to its call of `sendSubscriptions`.
unfoldable pub set_subscriptions : List String → Client → Client
set_subscriptions ids c = elim c.conn [
  | none ↦ record c { chat_ids = ids }
  | some s ↦ record c { chat_ids = ids; writer = some (called s) }
]

-- A frame that was read, in the switch of `session`; a malformed one is skipped.
unfoldable pub on_frame : Bool → Result Frame → Client → Client
on_frame connected (error e) c = c
on_frame connected (ok (ready version ids)) c = record c {
  phase = sending connected (next_command c);
  req_seq = suc c.req_seq;
}
on_frame connected (ok (Frame.subscriptions_updated id ids)) c = c
on_frame connected (ok (Frame.server_error id code message)) c = c
on_frame connected (ok (event e)) c = emit e c

-- The `RetryIn` of the last event.
abbrev pub announced_in : Option ℕ → List Event → Option ℕ
announced_in d [] = d
announced_in d (e ∷ es) = announced_in (some e.retry_in) es

-- What a step shows: a session failed, with the delay that was announced, a wait of some length was
-- over, it was cut short by `Retry`, the client was closed, or none of these.
pub data Label : Type 0 where
  ended : Bool → Option ℕ → Label
  waited : ℕ → Label
  retried : Label
  closed : Label
  silent : Label

-- The label of a session that failed, by the client that it leaves.
abbrev pub ended_with : Bool → Client → Label
ended_with connected c = ended connected (announced_in none c.emitted)

module _ ⦃json : Json⦄ where
  pub data Step : Client → Label → Client → Type 0 where
    -- The loop emits "connecting" and dials.
    start :
        (c : Client)
        → c.phase ≡ starting
        → Step c silent (emit (state_event event_connecting none 0) (record c { phase = dialing }))
    dial_fails :
        (c : Client) (e : String)
        → c.phase ≡ dialing
        → Step c (ended_with false (end_session false e c)) (end_session false e c)
    dial_works :
        (c : Client)
        → c.phase ≡ dialing
        → Step c silent (record c {
          phase = reading false;
          session = suc c.session;
          conn = some (suc c.session);
          wire = [];
        })
    -- A read fails, or brings a frame.
    read_fails :
        (b : Bool) (c : Client) (e : String)
        → c.phase ≡ reading b
        → Step c (ended_with b (end_session b e c)) (end_session b e c)
    read_frame :
        (b : Bool) (c : Client) (text : String)
        → c.phase ≡ reading b
        → Step c silent (on_frame b (decode_frame text) c)
    -- The write that answers "ready".
    write_fails :
        (b : Bool) (cmd : Command) (c : Client) (e : String)
        → c.phase ≡ sending b cmd
        → Step c (ended_with b (end_session b e c)) (end_session b e c)
    write_works :
        (b : Bool) (cmd : Command) (c : Client)
        → c.phase ≡ sending b cmd
        → Step c silent (
            emit
              (state_event event_connected none 0)
              (record c { phase = reading true; wire = c.wire ++ cmd ∷ [] }))
    -- The wait ends by itself, or by a pending retry.
    timer :
        (d : ℕ) (c : Client)
        → c.phase ≡ waiting d
        → Step c (waited d) (record c { phase = starting })
    retry_wakes :
        (d : ℕ) (c : Client)
        → c.phase ≡ waiting d
        → c.retry_pending ≡ true
        → Step c retried (record c { phase = starting; retry_pending = false; attempt = 0 })
    -- The calls: `Retry`, `SetSubscriptions`, one at a time, with the command it takes and its write,
    -- which is dropped when it fails, and `Close`.
    retry : (c : Client) → Step c silent (record c { retry_pending = true })
    set_chats :
        (ids : List String) (c : Client) → c.writer ≡ none → Step c silent (set_subscriptions ids c)
    writer_takes :
        (s : ℕ) (c : Client)
        → c.writer ≡ some (called s)
        → Step c silent
            (record c { req_seq = suc c.req_seq; writer = some (writing s (next_command c)) })
    writer_works :
        (s : ℕ) (cmd : Command) (c : Client)
        → c.writer ≡ some (writing s cmd)
        → c.conn ≡ some s
        → Step c silent (record c { writer = none; wire = c.wire ++ cmd ∷ [] })
    writer_fails :
        (s : ℕ) (cmd : Command) (c : Client)
        → c.writer ≡ some (writing s cmd)
        → Step c silent (record c { writer = none })
    close : (c : Client) → Step c closed (record c { phase = stopped; conn = none })

  -- The steps that a client has taken since `New`, with their labels, the last one first.
  pub data Run (backoff : List ℕ) : List Label → Client → Type 0 where
    begin : Run backoff [] (new backoff)
    then_step :
        {ls : List Label} {l : Label} {c c' : Client}
        → Run backoff ls c
        → Step c l c'
        → Run backoff (l ∷ ls) c'
