-- ===== src/Tab.antt =====
-- internal/ui/tab.go: the tabs, which filter the chat list on the client.
pub mod Partition
pub mod Badges
use beeper_tui.Base.{ℕ, suc, ltb, Bool, true, false, not, ◌&&◌, ◌||◌, List, [], ◌∷◌, if◌then◌else◌}
use beeper_tui.Api.{Chat}

pub data Tab : Type 0 where
  inbox unread mentions pinned low_priority archive chat : Tab

abbrev pub tab_order : List Tab
tab_order = inbox ∷ unread ∷ mentions ∷ pinned ∷ low_priority ∷ archive ∷ chat ∷ []

abbrev pub chat_tab : Tab → Bool
chat_tab chat = true
chat_tab _ = false

-- `t == TabArchive`.
abbrev is_archive : Tab → Bool
is_archive archive = true
is_archive _ = false

-- The switch of `includes`, for a chat that is not archived.
active_includes : Tab → Chat → Bool
active_includes unread c = ltb 0 c.unread || c.marked_unread
active_includes mentions c = ltb 0 c.mentions
active_includes pinned c = c.pinned
active_includes low_priority c = c.low_priority || c.muted
active_includes archive c = false
active_includes chat c = false
active_includes inbox c = not c.low_priority && not c.muted

unfoldable pub includes : Tab → Chat → Bool
unfolding active_includes
includes t c = if c.archived then is_archive t else active_includes t c

unfoldable pub count : Tab → List Chat → ℕ
count t [] = 0
count t (c ∷ cs) = let n = count t cs in if includes t c then suc n else n
