-- ===== src/Tools/Reading.antt =====
-- internal/ui/chattools.go: the tools that read the messages of one chat, and search in all of them.
use Prim.Native.Char.{code}
use beeper_tui.Base.{
  ℕ, ◌-◌, Bool, true, false, not, ◌&&◌, String, ◌==◌, List, [], ◌∷◌, none, some, ok, error,
  or_zero_value, map, keep, drop, length, if◌then◌else◌, ltb, eqb, trim_space, texts,
}
use beeper_tui.Platform.{Platform}
use beeper_tui.Api.{Chat, Message, MessageSearchResult}
use beeper_tui.Model.{ToolStep}
use beeper_tui.Messages.{truncate}
use beeper_tui.Tools.{ToolsApi, ToolArgs, SearchQuery}
use beeper_tui.Tools.Resolve.{resolve_chat_full}
use beeper_tui.Tools.Searching.{search_messages, sender_label, chat_title_in, titles_by_id}
use beeper_tui.Tools.Listing.{
  Answer, step_of, limit_or, parse_tool_args, format_tool_time, parse_tool_date, not_found,
}

-- `strings.ReplaceAll(s, "\n", " ")`.
one_line : String → String
one_line String.[] = ""
one_line (String.◌∷◌ c s) =
    let rest = one_line s in if eqb (code c) 10 then texts (" " ∷ rest ∷ []) else String.◌∷◌ c rest

-- The last messages of a list, up to a limit.
unfoldable pub newest : ℕ → List Message → List Message
newest limit msgs = if ltb limit (length msgs) then drop (length msgs - limit) msgs else msgs

module _ ⦃api : ToolsApi⦄ ⦃platform : Platform⦄ where
  -- `messageText`.
  unfoldable pub message_text : Message → String
  unfolding one_line
  message_text msg =
      truncate
        (if eqb (length msg.attachments) 0
          then one_line msg.text
          else trim_space (
              texts (
                one_line msg.text
                ∷ " ["
                ∷ platform.decimal (length msg.attachments)
                ∷ " attachment(s)]"
                ∷ [])))
        200

  abbrev message_line : Message → String
  message_line msg = texts (
      format_tool_time msg.timestamp
      ∷ " | "
      ∷ sender_label msg
      ∷ " | "
      ∷ message_text msg
      ∷ "\n"
      ∷ [])

  abbrev is_message : Message → Bool
  is_message msg = not msg.is_reaction

  -- The rest of `toolListMessages`, for the chat that was found.
  unfoldable pub read_chat : ToolStep → ℕ → Chat → Answer
  read_chat step limit chat =
      let step' = record step { args = truncate chat.title 30 } in
      elim (api.list_messages chat.id) [
        | error e ↦ (error e, step')
        | ok msgs ↦
            let shown = newest limit msgs in
            (
              ok (
                  texts (
                    "chat: "
                    ∷ chat.title
                    ∷ " ("
                    ∷ chat.network
                    ∷ ")\ntime | sender | text\n"
                    ∷ map message_line (keep is_message shown))),
              record step' { result = texts (platform.decimal (length shown) ∷ " msgs" ∷ []) },
            )
      ]

  -- `toolListMessages`.
  unfoldable pub tool_list_messages : String → Answer
  unfolding read_chat
  tool_list_messages args =
      let p = parse_tool_args args in
      let step = step_of "list_messages" (truncate p.chat 30) "" in
      if trim_space p.chat == "" then (error "chat is required", step) else elim api.list_chats [
        | error e ↦ (error e, step)
        | ok chats ↦
            let (chat, names) = resolve_chat_full chats p.chat in
            elim chat [
              | none ↦ not_found step p.chat names
              | some c ↦ read_chat step (limit_or 30 p.limit) c
            ]
      ]

  abbrev query_of : ToolArgs → SearchQuery
  query_of p = record {
    query = p.query;
    chat_id = "";
    sender = p.sender;
    after = 0;
    before = 0;
    limit = p.limit;
  }

  abbrev hit_line : List (String × String) → MessageSearchResult → String
  hit_line titles r =
      texts (chat_title_in titles r.message.chat_id ∷ " | " ∷ message_line r.message ∷ [])

  -- The answer of a search that succeeded.
  abbrev show_hits : ToolStep → List MessageSearchResult → Answer
  show_hits step [] = (ok "no messages match", record step { result = "0 results" })
  show_hits step (r ∷ rs) = (
    ok (
        texts (
          "chat | time | sender | text\n"
          ∷ map (hit_line (titles_by_id (or_zero_value [] api.list_chats) [])) (r ∷ rs))),
    record step { result = texts (platform.decimal (length (r ∷ rs)) ∷ " results" ∷ []) },
  )

  abbrev is_blank_query : SearchQuery → Bool
  is_blank_query q =
      q.query == "" && q.chat_id == "" && q.sender == "" && eqb q.after 0 && eqb q.before 0

  abbrev search_for : ToolStep → SearchQuery → Answer
  search_for step q =
      if is_blank_query q
      then (error "give a query or at least one filter", step)
      else elim (search_messages q) [ error e ↦ (error e, step) | ok hits ↦ show_hits step hits ]

  -- The dates of the arguments, then the search.
  unfoldable pub search_dated : ToolStep → ToolArgs → SearchQuery → Answer
  search_dated step p q = elim (parse_tool_date p.after false) [
    | error e ↦ (error e, step)
    | ok after ↦ elim (parse_tool_date p.before true) [
      | error e ↦ (error e, step)
      | ok before ↦ search_for step (record q { after = after; before = before })
    ]
  ]

  -- The search in the chat that was found.
  abbrev search_in : ToolStep → ToolArgs → Chat → Answer
  search_in step p chat =
      search_dated (if step.args == "" then record step { args = truncate chat.title 30 } else step)
        p (record (query_of p) { chat_id = chat.id })

  -- `toolSearchMessages`.
  unfoldable pub tool_search_messages : String → Answer
  unfolding search_dated
  tool_search_messages args =
      let p = parse_tool_args args in
      let step = step_of "search_messages" (truncate p.query 30) "" in
      if p.chat == "" then search_dated step p (query_of p) else elim api.list_chats [
        | error e ↦ (error e, step)
        | ok chats ↦
            let (chat, names) = resolve_chat_full chats p.chat in
            elim chat [ none ↦ not_found step p.chat names | some c ↦ search_in step p c ]
      ]
