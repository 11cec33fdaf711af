-- ===== src/Assistant/Turns.antt =====
-- internal/ui/chat.go: the transcript and the events of one response.
use beeper_tui.Base.{
  ℕ, suc, Bool, true, false, not, ◌&&◌, ◌||◌, String, ◌==◌, List, [], ◌∷◌, ◌++◌, map, Option, none,
  some, if◌then◌else◌, trim_left_blank, texts,
}
use beeper_tui.Platform.{Platform}
use beeper_tui.Model.{
  Model, Mode, ChatTurn, ChatRole, ToolStep, you, assistant, Cmd, detect_model, wait_chat_event,
  run_chat_session,
}
use beeper_tui.ChatLinks.{find_chat_links}
use beeper_tui.Assistant.Failure.{chat_server, chat_runtime_error}
use beeper_tui.Assistant.Lines.{chat_clamp_follow}

pub data ChatEvent : Type 0 where
  token : String → ChatEvent
  reasoning : ChatEvent
  tool_start tool_end : ToolStep → ChatEvent
  done : ChatEvent
  failed : String → ChatEvent

-- `waitForChatEvent`.
abbrev pub wait_for_chat_event : Model → List Cmd
wait_for_chat_event m = if m.chat_session then wait_chat_event ∷ [] else []

-- A function on the last turn, `&m.chatTurns[len-1]`.
unfoldable pub on_last {ℓ} : {A : Type ℓ} → (A → A) → List A → List A
on_last f [] = []
on_last f (x ∷ []) = f x ∷ []
on_last f (x ∷ y ∷ ys) = x ∷ on_last f (y ∷ ys)

-- `turn.text += text`, without blanks before the first character.
unfoldable pub add_token : String → ChatTurn → ChatTurn
add_token text t = record t {
  text = texts (t.text ∷ (if t.text == "" then trim_left_blank text else text) ∷ []);
}

-- The newest running step of the name is replaced: none where there is no such step.
unfoldable pub finish_step : ToolStep → List ToolStep → Option (List ToolStep)
finish_step ended [] = none
finish_step ended (s ∷ ss) =
    let here = s.running && s.name == ended.name in
    elim (finish_step ended ss) [
      | some ss' ↦ some (s ∷ ss')
      | none ↦ if here then some (ended ∷ ss) else none
    ]

abbrev pub end_step : ToolStep → ChatTurn → ChatTurn
end_step ended t = elim (finish_step ended t.steps) [
  | none ↦ t
  | some steps ↦ record t { steps = steps }
]

abbrev pub last_text : List ChatTurn → String
last_text [] = ""
last_text (t ∷ []) = t.text
last_text (t ∷ u ∷ us) = last_text (u ∷ us)

abbrev role_name : ChatRole → String
role_name you = "user"
role_name assistant = "assistant"

-- `chatHistory`, without the system prompt: roles and texts of the finished turns.
unfoldable pub history_of : List ChatTurn → List (String × String)
history_of [] = []
history_of (t ∷ ts) =
    let rest = history_of ts in
    if not (t.err_text == "") || t.streaming || t.text == ""
    then rest
    else (role_name t.role, t.text) ∷ rest

abbrev pub turn_of : ChatRole → String → Bool → ChatTurn
turn_of role text streaming = record {
  role = role;
  text = text;
  steps = [];
  streaming = streaming;
  err_text = "";
}

-- `submitChatInput` at the time `now`: the session's goroutine is a command.
unfoldable pub submit_chat_input : ℕ → Model → Model × List Cmd
submit_chat_input now m = elim m.llm [
  | none ↦ (m, [])
  | some _ ↦ if m.chat_input == "" || m.chat_session then (m, []) else (
    record m {
      chat_err = none;
      chat_turns = m.chat_turns ++ turn_of you m.chat_input false ∷ turn_of assistant "" true ∷ [];
      chat_input = "";
      chat_tokens = 0;
      chat_reasoning = 0;
      chat_started = now;
      chat_follow = true;
      mode = Mode.chat;
      chat_session = true;
    },
    run_chat_session (history_of m.chat_turns ++ ("user", m.chat_input) ∷ [])
        ∷ wait_chat_event
        ∷ [],
  )
]

-- `retryChatEndpoint`.
unfoldable pub retry_chat_endpoint : Model → Model × List Cmd
retry_chat_endpoint m = elim m.llm [
  | none ↦ (m, [])
  | some _ ↦ if m.chat_detecting || m.chat_session then (m, []) else (
    record m { chat_err = none; chat_checked = false; chat_detecting = true },
    detect_model ∷ [],
  )
]

-- `cancelChatSession`; the cancelled context is an effect on the session's goroutine.
abbrev stop_step : ToolStep → ToolStep
stop_step s = record s { running = false }

unfoldable pub stop_turn : ChatTurn → ChatTurn
stop_turn t =
    if t.streaming
    then record t {
      streaming = false;
      steps = map stop_step t.steps;
      err_text = if t.text == "" then "stopped" else t.err_text;
    }
    else t

unfoldable pub cancel_chat_session : Model → Model
cancel_chat_session m =
    if m.chat_session
    then record m { chat_session = false; chat_turns = on_last stop_turn m.chat_turns }
    else m

module _ ⦃platform : Platform⦄ where
  abbrev pub apply_kind : ChatEvent → Model → Model
  apply_kind (token text) m = record m {
    chat_err = none;
    chat_turns = on_last (add_token text) m.chat_turns;
    chat_tokens = suc m.chat_tokens;
  }
  apply_kind reasoning m = record m { chat_reasoning = suc m.chat_reasoning }
  apply_kind (tool_start step) m = record m {
    chat_err = none;
    chat_turns = on_last (λ t. record t { steps = t.steps ++ step ∷ [] }) m.chat_turns;
  }
  apply_kind (tool_end step) m = record m { chat_turns = on_last (end_step step) m.chat_turns }
  apply_kind (failed err) m = record m {
    chat_turns =
        on_last
          (λ t. record t {
            streaming = false;
            err_text = chat_runtime_error err (chat_server m.llm);
          })
          m.chat_turns;
    chat_err = some err;
    chat_session = false;
  }
  apply_kind done m = record m {
    chat_turns = on_last (λ t. record t { streaming = false }) m.chat_turns;
    chat_err = none;
    chat_session = false;
    chat_links = find_chat_links (last_text m.chat_turns) m.chats;
    chat_link_sel = none;
  }

  -- `applyChatEvent`: nothing without a session; a session that goes on is listened to again.
  unfoldable pub apply_chat_event : ChatEvent → Model → Model × List Cmd
  apply_chat_event ev m = elim m.chat_turns [
    | [] ↦ (m, [])
    | _ ∷ _ ↦
        if m.chat_session
        then (chat_clamp_follow (apply_kind ev m), wait_for_chat_event (apply_kind ev m))
        else (m, [])
  ]
