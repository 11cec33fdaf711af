-- ===== src/Tools/Listing/Bounds.antt =====
-- internal/ui/chattools.go: how many chats an answer lists, and which.
use beeper_tui.Base.{
  ◌≡◌, true, false, List, [], ◌∷◌, ◌⊎◌, ltb, ◌||◌, String, ◌==◌, map, texts, if◌then◌else◌,
}
use beeper_tui.Api.{Chat}
use beeper_tui.Tools.{ToolsApi}
use beeper_tui.Tools.Listing.{chat_line}
use beeper_tui.Platform.{Platform}

-- Why a chat is listed: it has something unread, where the filter is for that; it is in the inbox, where
-- the filter is that or missing; the filter is another one.
abbrev pub IsShown : String → Chat → Type 0
IsShown filter c =
    ((filter ≡ "unread") × ((ltb 0 c.unread || c.marked_unread) ≡ true))
    ⊎ (((filter == "inbox" || filter == "") ≡ true)
        × (c.archived ≡ false)
        × (c.muted ≡ false)
        × (c.low_priority ≡ false))
    ⊎ ((filter == "unread" || (filter == "inbox" || filter == "")) ≡ false)

abbrev or_inbox : String → String
or_inbox filter = if filter == "" then "inbox" else filter

module _ ⦃api : ToolsApi⦄ ⦃platform : Platform⦄ where
  -- The table of some chats, as the model reads it.
  abbrev pub chat_table : List Chat → String
  chat_table [] = "no chats match"
  chat_table (c ∷ cs) = texts (
      "title | network | unread | mentions | last_active | last_message\n" ∷ map chat_line (c ∷ cs))
