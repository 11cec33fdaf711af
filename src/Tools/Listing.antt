-- ===== src/Tools/Listing.antt =====
-- internal/ui/chattools.go: the tools that list chats and messages, and the reminder. An answer of
-- a tool is its text or its error, with the step that the transcript shows; the sources of a step
-- are left out.
pub mod Bounds
use beeper_tui.Base.{
  ℤ, pos, negsuc, ℕ, zero, suc, ◌-◌, Bool, true, false, not, ◌&&◌, ◌||◌, String, ◌==◌, List, [],
  ◌∷◌, ◌++◌, Option, none, some, Result, ok, error, or_zero_value, map, any, keep, take, drop,
  length, if◌then◌else◌, ltb, leb, eqb, trim_space, byte_len, texts, join,
}
use beeper_tui.Platform.{Platform}
use beeper_tui.Api.{Chat, Participant, Message, MessageSearchResult}
use beeper_tui.Model.{ToolStep}
use beeper_tui.Messages.{truncate}
use beeper_tui.Tools.{ToolsApi, ToolArgs, SearchQuery}
use beeper_tui.Tools.Resolve.{resolve_chat_full}
use beeper_tui.Tools.Searching.{search_messages, sender_label, chat_title_in, titles_by_id}

abbrev pub Answer : Type 0
Answer = Result String × ToolStep

abbrev pub step_of : String → String → String → ToolStep
step_of name args result = record { name = name; args = args; result = result; running = false }

-- `p.Limit`, or the default where it is not between 1 and 100.
unfoldable pub limit_or : ℕ → ℤ → ℕ
limit_or default (pos n) = if leb 1 n && leb n 100 then n else default
limit_or default (negsuc n) = default

-- `isUnanswered`.
unfoldable pub is_unanswered : Chat → Bool
is_unanswered c =
    if c.archived || c.muted || c.low_priority || c.last_from_me || c.preview == ""
    then false
    else if c.type == "single"
    then not (any (λ (p : Participant). p.is_bot) c.participants)
    else ltb 0 c.mentions

-- Whether `list_chats` shows a chat.
unfoldable pub is_listed : String → Chat → Bool
is_listed filter c =
    if filter == "unread"
    then not (eqb c.unread 0 && not c.marked_unread)
    else if filter == "inbox"
    then not (c.archived || c.muted || c.low_priority)
    else true

module _ ⦃api : ToolsApi⦄ where
  -- `parseToolArgs`.
  abbrev pub parse_tool_args : String → ToolArgs
  parse_tool_args args = api.decode_args (if trim_space args == "" then "" else args)

  -- `formatToolTime`.
  abbrev pub format_tool_time : ℕ → String
  format_tool_time ts = if eqb ts 0 then "?" else api.time_text ts

  -- `parseToolDate`; the zero time is 0.
  unfoldable pub parse_tool_date : String → Bool → Result ℕ
  parse_tool_date s end = if trim_space s == "" then ok 0 else elim (api.parse_date s) [
    | none ↦ error (texts ("bad date \"" ∷ s ∷ "\", want YYYY-MM-DD" ∷ []))
    | some t ↦ ok (if end then api.next_day t else t)
  ]

  -- The first layout of a list that reads the text.
  abbrev first_layout : List String → String → Option ℕ
  first_layout [] s = none
  first_layout (l ∷ ls) s = elim (api.parse_layout l s) [
    | some t ↦ some t
    | none ↦ first_layout ls s
  ]

  -- `parseToolTimestamp`.
  unfoldable pub parse_tool_timestamp : String → Result ℕ
  parse_tool_timestamp s =
      elim (first_layout
        ("2006-01-02T15:04:05Z07:00" ∷ "2006-01-02T15:04" ∷ "2006-01-02 15:04" ∷ [])
        (trim_space s)) [
          | some t ↦ ok t
          | none ↦ error (
              texts ("bad time \"" ∷ trim_space s ∷ "\", want ISO 8601 like 2026-08-08T09:00" ∷ []))
        ]

  -- The chats of an answer: those that pass, the newest first, up to the limit.
  unfoldable pub listed : (Chat → Bool) → ℕ → List Chat → List Chat
  listed test limit chats = take limit (keep test (api.recent_first chats))

  module _ ⦃platform : Platform⦄ where
    abbrev pub chat_line : Chat → String
    chat_line c = texts (
        c.title
        ∷ " | "
        ∷ c.network
        ∷ " | "
        ∷ platform.decimal c.unread
        ∷ " | "
        ∷ platform.decimal c.mentions
        ∷ " | "
        ∷ format_tool_time c.last_active
        ∷ " | "
        ∷ truncate c.preview 120
        ∷ "\n"
        ∷ [])

    abbrev pub counted_chats : ToolStep → String → String → String → List String → Answer
    counted_chats step unit empty header [] =
        (ok empty, record step { result = texts ("0 " ∷ unit ∷ []) })
    counted_chats step unit empty header (l ∷ ls) = (
      ok (texts (header ∷ l ∷ ls)),
      record step { result = texts (platform.decimal (length (l ∷ ls)) ∷ " " ∷ unit ∷ []) },
    )

    -- `toolListChats`.
    unfoldable pub tool_list_chats : String → Answer
    tool_list_chats args =
        let p = parse_tool_args args in
        let filter = if p.filter == "" then "inbox" else p.filter in
        let step = step_of "list_chats" filter "" in
        elim api.list_chats [
          | error e ↦ (error e, step)
          | ok chats ↦
              counted_chats step "chats" "no chats match"
                "title | network | unread | mentions | last_active | last_message\n"
                (map chat_line (listed (is_listed filter) (limit_or 40 p.limit) chats))
        ]

    abbrev waiting_line : Chat → String
    waiting_line c = texts (
        c.title
        ∷ " | "
        ∷ c.network
        ∷ " | "
        ∷ c.last_sender
        ∷ " | "
        ∷ format_tool_time c.last_active
        ∷ "\n"
        ∷ [])

    -- `toolUnansweredChats`.
    unfoldable pub tool_unanswered_chats : Answer
    tool_unanswered_chats =
        let step = step_of "unanswered_chats" "" "" in
        elim api.list_chats [
          | error e ↦ (error e, step)
          | ok chats ↦
              counted_chats step "waiting" "no chats are waiting on a reply"
                "chat | network | last_sender | waiting_since\n"
                (map waiting_line (listed is_unanswered 40 chats))
        ]

    -- What a tool answers where its chat is not found.
    abbrev pub not_found : ToolStep → String → List String → Answer
    not_found step key [] = (error (texts ("no chat matches \"" ∷ key ∷ "\"" ∷ [])), step)
    not_found step key (n ∷ ns) = (
      ok (texts ("ambiguous chat, candidates: " ∷ join (n ∷ ns) " | " ∷ [])),
      record step { result = "ambiguous" },
    )

    -- The rest of `toolSetReminder`, for the chat that was found.
    abbrev remind : ToolStep → ToolArgs → Chat → Answer
    remind step p chat = elim (parse_tool_timestamp p.at) [
      | error e ↦ (error e, step)
      | ok at ↦ elim (api.set_reminder chat.id at p.dismiss_on_message) [
        | some e ↦ (error e, step)
        | none ↦ (
          ok (texts ("reminder set on " ∷ chat.title ∷ " for " ∷ api.time_text at ∷ [])),
          record step { args = truncate chat.title 30; result = api.short_time_text at },
        )
      ]
    ]

    -- `toolSetReminder`.
    unfoldable pub tool_set_reminder : String → Answer
    tool_set_reminder args =
        let p = parse_tool_args args in
        let step = step_of "set_reminder" (truncate p.chat 30) "" in
        elim api.list_chats [
          | error e ↦ (error e, step)
          | ok chats ↦
              let (chat, candidates) = resolve_chat_full chats p.chat in
              elim chat [ none ↦ not_found step p.chat candidates | some c ↦ remind step p c ]
        ]
