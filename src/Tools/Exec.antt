-- ===== src/Tools/Exec.antt =====
-- internal/ui/chattools.go: running one call of a tool.
pub mod Output
use beeper_tui.Base.{
  ℕ, Bool, String, ◌==◌, List, [], ◌∷◌, Result, ok, error, if◌then◌else◌, ltb, byte_len, texts,
}
use beeper_tui.Platform.{Platform}
use beeper_tui.Model.{ToolStep}
use beeper_tui.Messages.{truncate}
use beeper_tui.Cards.{Yaml}
use beeper_tui.Cards.Sweep.{SweepApi}
use beeper_tui.Tools.{ToolsApi}
use beeper_tui.Tools.Listing.{
  Answer, step_of, tool_list_chats, tool_unanswered_chats, tool_set_reminder,
}
use beeper_tui.Tools.Reading.{tool_list_messages, tool_search_messages}
use beeper_tui.Tools.Cards.{
  ToolEnv, tool_search_contacts, tool_person_card, tool_update_person_card,
}

-- `toolResultLimit`.
abbrev pub tool_result_limit : ℕ
tool_result_limit = 6000

-- The end of `execChatTool`: the text for the model, and the step.
unfoldable pub tool_output : Answer → String × ToolStep
tool_output (error e, step) =
    (texts ("error: " ∷ e ∷ []), record step { result = texts ("error: " ∷ truncate e 60 ∷ []) })
tool_output (ok result, step) = (
  if ltb tool_result_limit (byte_len result)
      then texts (truncate result tool_result_limit ∷ "\n(truncated)" ∷ [])
      else result,
  step,
)

module _ ⦃api : ToolsApi⦄ ⦃platform : Platform⦄ ⦃yaml : Yaml⦄ ⦃sweep_api : SweepApi⦄ where
  -- The switch of `execChatTool`: the answer, and the environment that the tool leaves.
  unfoldable pub run_tool : ToolEnv → String → String → Answer × ToolEnv
  run_tool env name args =
      if name == "list_chats"
      then (tool_list_chats args, env)
      else if name == "list_messages"
      then (tool_list_messages args, env)
      else if name == "search_messages"
      then (tool_search_messages args, env)
      else if name == "unanswered_chats"
      then (tool_unanswered_chats, env)
      else if name == "search_contacts"
      then tool_search_contacts env args
      else if name == "set_reminder"
      then (tool_set_reminder args, env)
      else if name == "person_card"
      then tool_person_card env args
      else if name == "update_person_card"
      then tool_update_person_card env args
      else ((error (texts ("unknown tool \"" ∷ name ∷ "\"" ∷ [])), step_of name "" ""), env)

  -- `execChatTool`.
  unfoldable pub exec_chat_tool : ToolEnv → String → String → (String × ToolStep) × ToolEnv
  unfolding run_tool
  exec_chat_tool env name args =
      let (answer, left) = run_tool env name args in (tool_output answer, left)
