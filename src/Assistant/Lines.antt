-- ===== src/Assistant/Lines.antt =====
-- internal/ui/chatview.go: how many lines the transcript has, which is what its scrolling counts.
use beeper_tui.Base.{
  ℕ, ◌+◌, ◌-◌, Bool, true, false, not, ◌&&◌, ◌||◌, String, ◌==◌, List, [], ◌∷◌, none, some,
  if◌then◌else◌, ltb, leb, eqb, length, texts,
}
use beeper_tui.Platform.{Platform}
use beeper_tui.Model.{Model, Mode, ChatTurn, ChatRole, you, assistant}
use beeper_tui.Assistant.Failure.{chat_server, chat_error_detail, chat_failure_for}
use beeper_tui.Nav.Window.{visible_rows}

abbrev chat_gutter_width : ℕ
chat_gutter_width = 7

abbrev at_least_20 : ℕ → ℕ
at_least_20 w = if ltb w 20 then 20 else w

-- `chatTextWidth`.
unfoldable pub chat_text_width : Model → ℕ
chat_text_width m = at_least_20 (m.width - chat_gutter_width)

abbrev is_assistant : ChatRole → Bool
is_assistant assistant = true
is_assistant you = false

module _ ⦃platform : Platform⦄ where
  -- The number of `wrapLines`: one for the empty text. The width is above 0 at every call.
  unfoldable pub wrap_lines : String → ℕ → ℕ
  wrap_lines text width = if text == "" then 1 else platform.rendered_lines text width

  -- `chatThinkingLabel`.
  abbrev chat_thinking_label : Model → String
  chat_thinking_label m =
      if ltb 0 m.chat_reasoning
      then texts ("thinking… " ∷ platform.decimal m.chat_reasoning ∷ [])
      else "…"

  -- `chatTurnLines`.
  unfoldable pub chat_turn_lines : Model → ChatTurn → ℕ → ℕ
  chat_turn_lines m t width =
      let text =
        if is_assistant t.role && t.streaming && t.text == "" && eqb (length t.steps) 0
        then chat_thinking_label m
        else t.text in
      (if is_assistant t.role then length t.steps else 0)
      + wrap_lines text width
      + (if t.err_text == "" then 0 else wrap_lines t.err_text (width - 2))

  -- `chatBodyLines`.
  abbrev chat_body_lines : Model → String → ℕ
  chat_body_lines m text = wrap_lines text (at_least_20 (m.width - 2))

  -- `chatUnavailableLines`.
  unfoldable pub chat_unavailable_lines : Model → String → ℕ
  chat_unavailable_lines m err =
      let server = chat_server m.llm in
      let failure = chat_failure_for err server in
      3
      + chat_body_lines m failure.summary
      + chat_body_lines m failure.action
      + 3
      + (if failure.command == ""
          then 0
          else chat_body_lines m (texts ("Command  " ∷ failure.command ∷ [])))
      + chat_body_lines m (texts ("Error    " ∷ chat_error_detail err ∷ []))
      + chat_body_lines m (texts ("Server   " ∷ server.name ∷ " · " ∷ server.address ∷ []))
      + (if failure.config == ""
          then 0
          else chat_body_lines m (texts ("Config   " ∷ failure.config ∷ [])))

  -- `chatLandingLines`: four lines while connecting, two when ready.
  unfoldable pub chat_landing_lines : Model → ℕ
  unfolding chat_unavailable_lines
  chat_landing_lines m =
      if m.chat_detecting || not m.chat_checked
      then 4
      else elim m.chat_err [ none ↦ 2 | some err ↦ chat_unavailable_lines m err ]

  turns_lines : Model → ℕ → List ChatTurn → ℕ
  unfolding chat_turn_lines
  turns_lines m gap [] = 0
  turns_lines m gap (t ∷ ts) = gap + chat_turn_lines m t (chat_text_width m) + turns_lines m 1 ts

  -- `chatLines`: a blank line stands before each turn but the first.
  unfoldable pub chat_lines : Model → ℕ
  unfolding turns_lines chat_landing_lines
  chat_lines m = elim m.llm [
    | none ↦ 4
    | some _ ↦ elim m.chat_turns [
      | [] ↦ chat_landing_lines m
      | _ ∷ _ ↦ turns_lines m 0 m.chat_turns
    ]
  ]

  abbrev is_chat_insert : Mode → Bool
  is_chat_insert Mode.chat_insert = true
  is_chat_insert _ = false

  -- The rows of the transcript: one less while a question is typed.
  abbrev pub transcript_rows : Model → ℕ
  transcript_rows m = if is_chat_insert m.mode then visible_rows m - 1 else visible_rows m

  -- `maxChatOffset`.
  unfoldable pub max_chat_offset : Model → ℕ
  max_chat_offset m =
      let n = chat_lines m in if leb n (transcript_rows m) then 0 else n - transcript_rows m

  -- `clampChatWindow`, of an offset that subtraction has stopped at 0.
  unfoldable pub clamp_chat_window : Model → Model
  clamp_chat_window m = record m {
    chat_offset =
        if ltb (max_chat_offset m) m.chat_offset then max_chat_offset m else m.chat_offset;
  }

  -- `chatClampFollow`.
  unfoldable pub chat_clamp_follow : Model → Model
  chat_clamp_follow m =
      clamp_chat_window
        (record m { chat_offset = if m.chat_follow then max_chat_offset m else m.chat_offset })
