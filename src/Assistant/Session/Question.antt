-- ===== src/Assistant/Session/Question.antt =====
-- internal/ui/chat.go: a question, from the key that submits it to the end of its answer.
use beeper_tui.Base.{◌≡◌, refl, ℕ, true, false, any, ◌==◌, List, [], ◌∷◌, ◌++◌, some, ap}
use beeper_tui.Platform.{Platform}
use beeper_tui.Model.{Model, Llm, ChatTurn, you, assistant}
use beeper_tui.Assistant.Turns.{submit_chat_input, turn_of}
use beeper_tui.Assistant.Session.{Round}
use beeper_tui.Assistant.Session.Ends.{Runs, run_session-IsComplete}
use beeper_tui.Assistant.Session.Transcript.{
  IsOpen, IsOver, run_asked, run_asked-IsOver, is_start, is_wait,
}

-- A question can be asked: a model client, some text, and no session under way.
abbrev pub IsAskable : Model → Type 0
IsAskable m =
    ((llm : Llm) × (m.llm ≡ some llm)) × ((m.chat_input == "") ≡ false) × (m.chat_session ≡ false)

append_two {ℓ} : {A : Type ℓ} (xs : List A) (a b : A) → xs ++ a ∷ b ∷ [] ≡ (xs ++ a ∷ []) ++ b ∷ []
append_two [] a b = refl
append_two (x ∷ xs) a b = ap (λ ys. x ∷ ys) (append_two xs a b)

-- The transcript with the question.
abbrev pub asked : Model → List ChatTurn
asked m = m.chat_turns ++ turn_of you m.chat_input false ∷ []

submitted : (now : ℕ) (m : Model) → IsAskable m → IsOpen (asked m) m.llm (submit_chat_input now m).0
unfolding submit_chat_input IsOpen
submitted now m ((llm, e), written, free) =
    rw (submit_chat_input, e, written, free)
      (refl, e, turn_of assistant "" true, append_two m.chat_turns _ _, refl)

-- The update starts the session and waits for its first event.
commanded :
    (now : ℕ) (m : Model)
    → IsAskable m
    → (any is_start (submit_chat_input now m).1 ≡ true)
      × (any is_wait (submit_chat_input now m).1 ≡ true)
unfolding submit_chat_input
commanded now m ((llm, e), written, free) = rw (submit_chat_input, e, written, free) (refl, refl)

-- A question that is not cancelled is answered or fails, whatever the model server and the tools
-- return: where the commands of the update start the session and wait for each of its events, then
-- no session runs at the end, the question and its answer follow the turns there were, the answer is
-- no longer streaming, and either no failure is shown or the answer has the text of the failure.
pub question_ends :
    ⦃platform : Platform⦄ (now : ℕ) (m : Model) (rounds : ℕ → Round)
    → IsAskable m
    → ((i : ℕ) → Runs (rounds i).outcome)
    → IsOver (asked m) m.llm (run_asked rounds (submit_chat_input now m))
question_ends now m rounds a h =
    let (start, wait) = commanded now m a in
    run_asked-IsOver rounds (asked m) m.llm (submit_chat_input now m).0 (submit_chat_input now m).1
      (run_session-IsComplete rounds h) (submitted now m a) start wait
