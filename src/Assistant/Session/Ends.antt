-- ===== src/Assistant/Session/Ends.antt =====
-- internal/ui/chat.go: the events of a session, and the transcript that they leave.
use beeper_tui.Base.{
  ◌≡◌, refl, ℕ, zero, suc, Bool, true, false, List, [], ◌∷◌, ◌++◌, map, All, arith,
}
use beeper_tui.Assistant.Turns.{ChatEvent, token, reasoning, tool_start, tool_end, done, failed}
use beeper_tui.Assistant.Session.{
  Call, finished, cancelled_call, Outcome, answer, cancelled, stream_error, tool_calls, Piece,
  delta, thought, Round, piece_event, running_step, run_calls, after_round, run_rounds, run_session,
  max_chat_steps,
}

-- The events after which a session is over.
abbrev pub is_end : ChatEvent → Bool
is_end done = true
is_end (failed _) = true
is_end _ = false

-- One terminal event, and it is the last.
abbrev pub IsComplete : List ChatEvent → Type 0
IsComplete [] = true ≡ false
IsComplete (e ∷ []) = is_end e ≡ true
IsComplete (e ∷ f ∷ es) = (is_end e ≡ false) × IsComplete (f ∷ es)

abbrev pub is_finished : Call → Bool
is_finished (finished _ _ _) = true
is_finished (cancelled_call _ _ _) = false

-- A round that is not cancelled: neither its stream nor one of its calls.
abbrev pub Runs : Outcome → Type 0
Runs answer = Unit
Runs cancelled = true ≡ false
Runs (stream_error _) = Unit
Runs (tool_calls c cs) = All (λ call. is_finished call ≡ true) (c ∷ cs)

before-IsComplete :
    (e : ChatEvent) (es : List ChatEvent) → is_end e ≡ false → IsComplete es → IsComplete (e ∷ es)
before-IsComplete e [] h k = absurd (ground arith)
before-IsComplete e (f ∷ es) h k = (h, k)

calls-IsComplete :
    (calls : List Call) (rest : List ChatEvent)
    → All (λ call. is_finished call ≡ true) calls
    → IsComplete rest
    → IsComplete (run_calls calls rest)
unfolding run_calls
calls-IsComplete [] rest h k = k
calls-IsComplete (finished name args step ∷ calls) rest (_, h) k =
    before-IsComplete (tool_start (running_step name args)) (tool_end step ∷ run_calls calls rest)
      refl
      (before-IsComplete (tool_end step) (run_calls calls rest) refl
        (calls-IsComplete calls rest h k))
calls-IsComplete (cancelled_call name args step ∷ calls) rest (p, h) k = absurd (ground arith)

outcome-IsComplete :
    (o : Outcome) (rest : List ChatEvent)
    → Runs o
    → IsComplete rest
    → IsComplete (after_round o rest)
unfolding after_round
outcome-IsComplete answer rest h k = refl
outcome-IsComplete cancelled rest h k = absurd (ground arith)
outcome-IsComplete (stream_error err) rest h k = refl
outcome-IsComplete (tool_calls c cs) rest h k = calls-IsComplete (c ∷ cs) rest h k

pieces-IsComplete :
    (ps : List Piece) (rest : List ChatEvent)
    → IsComplete rest
    → IsComplete (map piece_event ps ++ rest)
pieces-IsComplete [] rest k = k
pieces-IsComplete (delta s ∷ ps) rest k =
    before-IsComplete (token s) _ refl (pieces-IsComplete ps rest k)
pieces-IsComplete (thought ∷ ps) rest k =
    before-IsComplete reasoning _ refl (pieces-IsComplete ps rest k)

rounds-IsComplete :
    (rounds : ℕ → Round) (step left : ℕ)
    → ((i : ℕ) → Runs (rounds i).outcome)
    → IsComplete (run_rounds rounds step left)
unfolding run_rounds
rounds-IsComplete rounds step zero h = refl
rounds-IsComplete rounds step (suc left) h = pieces-IsComplete (rounds step).pieces _ (
    outcome-IsComplete (rounds step).outcome _ (h step)
      (rounds-IsComplete rounds (suc step) left h))

-- A session that nobody cancels emits one terminal event, done or failed, and nothing after it,
-- whatever the server and the tools answer.
pub run_session-IsComplete :
    (rounds : ℕ → Round) → ((i : ℕ) → Runs (rounds i).outcome) → IsComplete (run_session rounds)
unfolding run_session
run_session-IsComplete rounds h = rounds-IsComplete rounds 0 max_chat_steps h
