-- ===== src/Socket/Subscriptions.antt =====
-- internal/ws/client.go: which chats the server is told about. `sendSubscriptions` takes the set under
-- the lock and writes it after the lock is given up.
use beeper_tui.Base.{
  ◌≡◌, refl, sym, ℕ, String, List, [], ◌∷◌, Option, none, some, Result, ok, true, false,
}
use beeper_tui.Socket.Frames.{Frame, Json, ready, decode_frame, event_connecting}
use beeper_tui.Socket.{
  Client, Command, Label, silent, Step, Run, reading, begin, then_step, new, on_frame,
  set_subscriptions, emit, state_event,
}

-- What the server was told last on the present connection.
abbrev last_of : Option (List String) → List Command → Option (List String)
last_of ids [] = ids
last_of ids (c ∷ cs) = last_of (some c.chat_ids) cs

abbrev pub told : Client → Option (List String)
told c = last_of none c.wire

-- The client in its first session, before anything was read.
abbrev dialed : List ℕ → Client
dialed backoff = record (emit (state_event event_connecting none 0) (new backoff)) {
  phase = reading false;
  session = 1;
  conn = some 1;
}

module _ ⦃json : Json⦄ where
  -- A connection is established, every write on it has succeeded and no call is under way, but the
  -- server was last told another set than the one that is kept.
  abbrev pub IsStale : Client → List String → List String → Type 0
  IsStale c kept sent =
      (c.phase ≡ reading true) × (c.writer ≡ none) × (c.chat_ids ≡ kept) × (told c ≡ some sent)

  read_as :
      (c : Client) (text : String) (r : Result Frame)
      → c.phase ≡ reading false
      → decode_frame text ≡ r
      → Step c silent (on_frame false r c)
  read_as c text r p h = rw (sym h) (Step.read_frame false c text p)

  -- Whatever set `SetSubscriptions` is called with, the client can reach an established connection
  -- on which all writes succeeded and whose server was last told the old set: the call came between
  -- the taking of the set and its write.
  pub overtaken_write :
      (backoff : List ℕ) (ids : List String) (text : String) (version : ℕ) (chats : List String)
      → decode_frame text ≡ ok (ready version chats)
      → (ls : List Label) × (c : Client) × Run backoff ls c × IsStale c ids ("*" ∷ [])
  unfolding set_subscriptions on_frame
  overtaken_write backoff ids text version chats h =
      let ready_read : Run backoff _ (on_frame false (ok (ready version chats)) (dialed backoff)) =
        then_step
          (then_step (then_step begin (Step.start (new backoff) refl)) (Step.dial_works _ refl))
          (read_as (dialed backoff) text (ok (ready version chats)) refl h) in
      let written =
        then_step
          (then_step (then_step ready_read (Step.set_chats ids _ refl))
            (Step.writer_takes 1 _ refl))
          (Step.writer_works 1 _ _ refl refl) in
      (_, _, then_step written (Step.write_works false _ _ refl), (refl, refl, refl, refl))
