-- ===== src/Assistant/Session.antt =====
-- internal/ui/chat.go: `runChatSession`, the loop of the assistant. What the model server and the tools
-- answer is an argument: for each round, the streamed pieces and how the stream ended.
pub mod Ends
pub mod Transcript
pub mod Question
use beeper_tui.Base.{ℕ, zero, suc, ◌+◌, ◌-◌, true, false, String, List, [], ◌∷◌, ◌++◌, map}
use beeper_tui.Model.{ToolStep}
use beeper_tui.Assistant.Turns.{ChatEvent, token, reasoning, tool_start, tool_end, done, failed}

-- One tool call: its name and arguments as shown, and the step that running it gives. A call during
-- which the context is cancelled ends the session.
pub data Call : Type 0 where
  finished cancelled_call : String → String → ToolStep → Call

-- How the stream of one round ended.
pub data Outcome : Type 0 where
  answer cancelled : Outcome
  stream_error : String → Outcome
  tool_calls : Call → List Call → Outcome

-- A streamed piece of the reply.
pub data Piece : Type 0 where
  delta : String → Piece
  thought : Piece

pub record Round : Type 0 where
  pub pieces : List Piece
  pub outcome : Outcome

abbrev pub max_chat_steps : ℕ
max_chat_steps = 8

abbrev pub piece_event : Piece → ChatEvent
piece_event (delta s) = token s
piece_event thought = reasoning

abbrev pub running_step : String → String → ToolStep
running_step name args = record { name = name; args = args; result = ""; running = true }

-- The events of the calls of a round, then those of the rest of the session.
unfoldable pub run_calls : List Call → List ChatEvent → List ChatEvent
run_calls [] rest = rest
run_calls (finished name args step ∷ calls) rest =
    tool_start (running_step name args) ∷ tool_end step ∷ run_calls calls rest
run_calls (cancelled_call name args step ∷ calls) rest = tool_start (running_step name args) ∷ []

unfoldable pub after_round : Outcome → List ChatEvent → List ChatEvent
after_round answer rest = done ∷ []
after_round cancelled rest = []
after_round (stream_error err) rest = failed err ∷ []
after_round (tool_calls c cs) rest = run_calls (c ∷ cs) rest

-- The loop, with the rounds that are left.
unfoldable pub run_rounds : (ℕ → Round) → ℕ → ℕ → List ChatEvent
unfolding after_round run_calls
run_rounds rounds step zero = failed "stopped after 8 tool rounds" ∷ []
run_rounds rounds step (suc left) =
    let rest = run_rounds rounds (suc step) left in
    map piece_event (rounds step).pieces ++ after_round (rounds step).outcome rest

-- `runChatSession`: the events in the order in which they are emitted.
unfoldable pub run_session : (ℕ → Round) → List ChatEvent
unfolding run_rounds
run_session rounds = run_rounds rounds 0 max_chat_steps
