-- ===== src/Lib.antt =====
-- A model of beeper-tui, a terminal client for Beeper Desktop, and proofs about it.
--
-- The program is an event loop in the style of Elm. The state is one record (internal/ui/model.go),
-- `Update` takes a message and returns the next state and the asynchronous work to start, and the
-- results of that work come back as messages. The live event stream (internal/ws), the API client
-- (internal/api) and the assistant's session (internal/ui/chat.go) run beside the loop and reach the
-- state only through messages. Here a handler is a function from the state to the next state and a
-- list of commands; the clock is an argument.
--
-- Base: shared helpers. Lists, options, texts, integers and association lists over native numbers.
-- Platform: what the program calls and does not implement, an argument of what uses it: Unicode case,
--   the file system, the terminal toolkit, the emoji table, `url.Parse`.
-- Api: internal/api/types.go, the chats, messages, attachments and contacts.
-- Tab: internal/ui/tab.go, the tabs as filters; Tab/Partition and Tab/Badges are about their counts.
-- Model: internal/ui/model.go, the state and the commands.
-- View: internal/ui/view.go, the heights of messages, which scrolling needs.
-- Nav: internal/ui/nav.go. Nav/Window has `clampWindow`, `maxMsgOffset` and the visible chats,
--   Nav/Cursor the motions, Nav/Chats the tabs, opening and archiving, Nav/Search the search,
--   Nav/Compose the composer and `sendInput`, Nav/Keys `handleKey`. Nav/Frame, Nav/Bounds and
--   Nav/Rows are about `clampWindow` on the whole state.
-- Sorting: internal/ui/unread.go, `sortChats` and `reselectByID`.
-- Events: internal/ui/wsevents.go, the handlers of live events; Events/Entries has the events of
--   internal/ws/events.go and the update of a list of messages by one of them.
-- Poll: internal/ui/poll.go, the refresh and its merge with messages not yet echoed.
-- Messages: internal/ui/messages.go, the reason of a failed send and its retry. Messages/Sending has
--   what the commands that send do, `sendMessageCmd` and `sendAttachmentsCmd` of media.go.
-- React: internal/ui/react.go, the reaction picker.
-- Media, Preview: internal/ui/media.go and preview.go, loading attachments and the preview pane.
-- Contacts: internal/ui/contacts.go, the titles of chats from contacts.
-- Identity: internal/identity. Identity/Handle has the number-like names, Identity/Person a person and
--   what an observation adds, Identity/Policy and Identity/CommonNames mergefile.go and
--   commonnames.go, Identity/Builder `add` with the links of merged people, Identity/Build
--   `BuildWithPolicy`, Identity/Search the searches. A `*Person` is its index in the list of all people
--   made, so that the merge links are numbers. Builder/Links, Forest and Merging are about the links.
-- Cards: internal/person. Cards is card.go and `Merge` of extract.go, Cards/Store the files, Cards/Sweep
--   sweep.go and `Extract`, Cards/Display the text of a card; Cards/Filling is about `Merge`,
--   Cards/File about a card that is written and read back.
-- Socket: internal/ws. Socket/Frames has events.go, Socket the client of client.go as a step relation:
--   a step is one action of its loop, of the server, of the clock or of a caller. Socket/Schedule is
--   about its delays, Socket/Lifecycle about its events, Socket/Subscriptions about its commands.
-- Completion: internal/llm/client.go. Completion/Stream has the lines of a streamed reply,
--   Completion/Lookup and Completion/Calls are about the calls of tools that it is put together from.
-- Tools: internal/ui/chattools.go. Tools/Resolve finds chats and people, Tools/Searching the messages,
--   Tools/Listing, Tools/Reading and Tools/Cards have the tools, Tools/Exec `execChatTool`.
-- Cache: internal/ui/cache.go and internal/state/cache.go; Cache/WarmStart has the start in
--   cmd/beeper-tui/main.go.
-- ChatLinks: internal/ui/chatlinks.go, the conversations that an answer mentions. The regular
--   expression `phoneSpan` is written out as the function that finds its matches.
-- Assistant: internal/ui/chat.go and chatview.go. Assistant/Session is the loop
--   `runChatSession`, Assistant/Turns the transcript, Assistant/Keys the keys, Assistant/Lines the
--   scroll window, Assistant/Failure the messages on a failure.
-- Redact: internal/redact/redact.go, the vault of tokens and `HoldBack`, and its use on a stream in
--   internal/llm/client.go. Redact/Tokens is about the vault, Redact/Stream about the stream.
-- Update: internal/ui/update.go, `Init` and `Update`. Update/Resend is about a message that could not be
--   sent, Update/Previews about loads and their results.
-- Examples: concrete states on which the theorems are applied.
--
-- The number with which `mint` ends, from `crypto/rand`, is an argument of the vault. `HoldBack` cuts at
-- bytes, so its texts are lists of bytes, and it looks at fourteen tails, as the source does.
--
-- Numbers are natural numbers: counts, positions and times in nanoseconds, with Go's zero time as 0. A
-- position that the source clamps from below is a subtraction that stops at 0; an index of -1 is
-- `none`. Only `msg_selected` is an integer, since it is moved by whole pages before it is clamped. No
-- count comes near the bound of a Go `int`.
--
-- The sweep and the event client count in seconds. A panic of the event client is a phase of its own. One
-- call of `SetSubscriptions` is under way at a time: it takes its connection, its command and writes in
-- three steps.
--
-- Loops are structural recursion. Three have a bound in the place of a condition: the loop that scrolls
-- down to the cursor message takes at most as many rounds as there are messages between the offset and
-- the cursor, since it never passes the cursor, the assistant's session has the eight rounds of the
-- source, and `find` takes as many rounds as there are people, of which fewer are merged.
--
-- A map is an association list. `sort.Slice`, whose order of equals is not stated, is an operation of
-- the interface that the callers use. `sort.SliceStable` is a stable insertion sort by the same order: the
-- result of a stable sort is determined by the order. An error is its text. `truncate` drops a
-- character that its limit would cut, where the source keeps its first bytes.
--
-- Not modelled: HTTP, WebSocket and file access, JSON and YAML, goroutines and channels beyond the steps
-- of the event client, the drawing of the screen, images, external programs, the API client, the
-- requests of the model client, the sources that a tool shows, `Redact` and `Rehydrate` of the vault, which apply regular expressions, configuration and attestation. They are
-- input and output, wrappers of other libraries, or parts still to come.
pub mod Api
pub mod Assistant
pub mod Base
pub mod Cache
pub mod Cards
pub mod ChatLinks
pub mod Completion
pub mod Contacts
pub mod Events
pub mod Examples
pub mod Identity
pub mod Media
pub mod Messages
pub mod Model
pub mod Nav
pub mod Platform
pub mod Poll
pub mod Preview
pub mod React
pub mod Redact
pub mod Socket
pub mod Sorting
pub mod Tab
pub mod Tools
pub mod Update
pub mod View
