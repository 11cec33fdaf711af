-- ===== src/Examples/Answers.antt =====
-- A question to the assistant, on a concrete server.
use beeper_tui.Base.{refl, ℕ, zero, suc, false, [], ◌∷◌, some}
use beeper_tui.Model.{Model, new, Llm, ToolStep}
use beeper_tui.Assistant.Turns.{submit_chat_input}
use beeper_tui.Assistant.Session.{Round, finished, answer, tool_calls, delta}
use beeper_tui.Assistant.Session.Ends.{Runs}
use beeper_tui.Assistant.Session.Transcript.{IsOver, run_asked}
use beeper_tui.Assistant.Session.Question.{question_ends, asked}
use beeper_tui.Examples.{plain_platform, two_chats}

abbrev listed : ToolStep
listed = record { name = "list_chats"; args = ""; result = "2 chats"; running = false }

-- One tool call, then an answer.
abbrev demo_rounds : ℕ → Round
demo_rounds zero = record { pieces = []; outcome = tool_calls (finished "list_chats" "" listed) [] }
demo_rounds (suc _) = record { pieces = delta "You have two chats." ∷ []; outcome = answer }

demo_rounds_run : (i : ℕ) → Runs (demo_rounds i).outcome
demo_rounds_run zero = (refl, tt)
demo_rounds_run (suc i) = tt

abbrev client : Llm
client = record { model = "qwen"; base_url = "http://localhost:11434/v1" }

abbrev asking : Model
asking = record two_chats { llm = some client; chat_input = "How many chats?" }

question_ends_example :
    IsOver (asked asking) (some client) (run_asked demo_rounds (submit_chat_input 0 asking))
unfolding new
question_ends_example =
    question_ends 0 asking demo_rounds ((client, refl), refl, refl) demo_rounds_run
