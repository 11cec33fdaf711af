-- ===== src/Assistant/Keys.antt =====
-- internal/ui/chat.go and chatlinks.go: the keys of the assistant tab.
use beeper_tui.Base.{
  ℕ, suc, ◌+◌, ◌-◌, ◌/◌, ◌%◌, true, false, not, ◌||◌, String, ◌==◌, List, [], ◌∷◌, Option, none,
  some, if◌then◌else◌, length, get_elem?, is_some, drop_last_rune,
}
use Prim.Native.String.{◌++◌ as concat}
use beeper_tui.Platform.{Platform}
use beeper_tui.Model.{Model, Mode, ChatLink, Cmd, quit}
use beeper_tui.Nav.Window.{visible_rows}
use beeper_tui.Nav.Cursor.{up, down}
use beeper_tui.Nav.Chats.{cycle_tab, chat_index_by_id, open_selected}
use beeper_tui.Assistant.Lines.{clamp_chat_window, max_chat_offset}
use beeper_tui.Assistant.Turns.{submit_chat_input, retry_chat_endpoint, cancel_chat_session}

-- `(sel + 1) % n` from -1 on, for `n` above 0.
unfoldable pub next_link : ℕ → Option ℕ → Option ℕ
next_link n none = some 0
next_link n (some i) = some ((i + 1) % n)

unfoldable pub previous_link : ℕ → Option ℕ → Option ℕ
previous_link n none = some (n - 1)
previous_link n (some i) = some ((i + n - 1) % n)

abbrev pub cycle_link : (ℕ → Option ℕ → Option ℕ) → Model → Model
cycle_link next m = elim m.chat_links [
  | [] ↦ m
  | _ ∷ _ ↦ record m { chat_link_sel = next (length m.chat_links) m.chat_link_sel }
]

abbrev selected_link : Model → Option ChatLink
selected_link m = elim m.chat_link_sel [ none ↦ none | some i ↦ get_elem? m.chat_links i ]

-- The keys that start a question: with an error the endpoint is tried again, and before the endpoint
-- was found they do nothing.
unfoldable pub start_question : Model → Model × List Cmd
start_question m =
    if is_some m.chat_err
    then retry_chat_endpoint m
    else if not (is_some m.llm) || m.chat_detecting || not m.chat_checked
    then (m, [])
    else (record m { mode = Mode.chat_insert }, [])

-- The `c` key: a new transcript, unless a response is under way.
abbrev clear_transcript : Model → Model
clear_transcript m =
    if m.chat_session then m else record m { chat_turns = []; chat_offset = 0; chat_follow = true }

module _ ⦃platform : Platform⦄ where
  -- `openChatByID`.
  unfoldable pub open_chat_by_id : String → Model → Model × List Cmd
  open_chat_by_id id m = elim (chat_index_by_id m.chats id) [
    | none ↦ (m, [])
    | some i ↦ open_selected (record m { selected = i; return_to_chat = true })
  ]

  abbrev scroll_chat : ℕ → Model → Model
  scroll_chat offset m = clamp_chat_window (record m { chat_follow = false; chat_offset = offset })

  abbrev on_enter : Model → Model × List Cmd
  on_enter m = elim (selected_link m) [
    | some link ↦ open_chat_by_id link.chat_id m
    | none ↦ start_question m
  ]

  unfoldable pub on_chat_key : String → Model → Model × List Cmd
  on_chat_key key m =
      if key == "ctrl+c" || key == "q"
      then (m, quit ∷ [])
      else if key == "esc"
      then (if is_some m.chat_link_sel
          then (record m { chat_link_sel = none }, [])
          else (cancel_chat_session m, []))
      else if key == "tab"
      then cycle_tab down (record m { chat_link_sel = none })
      else if key == "shift+tab"
      then cycle_tab up (record m { chat_link_sel = none })
      else if key == "n"
      then (cycle_link next_link m, [])
      else if key == "N"
      then (cycle_link previous_link m, [])
      else if key == "enter"
      then on_enter m
      else if key == "i"
      then start_question m
      else if key == "c"
      then (clear_transcript m, [])
      else if key == "r"
      then (if is_some m.chat_err then retry_chat_endpoint m else (m, []))
      else if key == "j" || key == "down"
      then (scroll_chat (suc m.chat_offset) m, [])
      else if key == "k" || key == "up"
      then (scroll_chat (m.chat_offset - 1) m, [])
      else if key == "ctrl+d"
      then (scroll_chat (m.chat_offset + visible_rows m / 2) m, [])
      else if key == "ctrl+u"
      then (scroll_chat (m.chat_offset - visible_rows m / 2) m, [])
      else if key == "G"
      then (record m { chat_follow = true; chat_offset = max_chat_offset m }, [])
      else if key == "g"
      then (if m.pending_g
          then (record m { pending_g = false; chat_follow = false; chat_offset = 0 }, [])
          else (record m { pending_g = true }, []))
      else if key == "l" || key == "right"
      then cycle_tab down m
      else if key == "h" || key == "left"
      then cycle_tab up m
      else (m, [])

  -- `handleChatKey`.
  unfoldable pub handle_chat_key : String → Model → Model × List Cmd
  unfolding on_chat_key
  handle_chat_key key m =
      on_chat_key key (record m { pending_g = if key == "g" then m.pending_g else false })

-- `handleChatInsertKey` at the time `now`.
unfoldable pub handle_chat_insert_key : ℕ → String → String → Model → Model × List Cmd
handle_chat_insert_key now key text m =
    if key == "ctrl+c"
    then (m, quit ∷ [])
    else if key == "esc"
    then (record m { chat_input = ""; mode = Mode.chat }, [])
    else if key == "enter"
    then submit_chat_input now m
    else if key == "backspace"
    then (record m { chat_input = drop_last_rune m.chat_input }, [])
    else (record m { chat_input = concat m.chat_input text }, [])
