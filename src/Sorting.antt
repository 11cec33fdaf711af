-- ===== src/Sorting.antt =====
-- internal/ui/unread.go: the order of the chat list, the first unread message, and finding a chat
-- again after a sort. `sort.SliceStable` is the stable insertion sort: any stable sort by the same
-- order gives the same list.
pub mod Order
pub mod Select
use beeper_tui.Base.{ℕ, suc, Bool, String, List, [], ◌∷◌, Option, none, some, if◌then◌else◌, ltb}
use beeper_tui.Api.{Chat, Message}
use beeper_tui.Nav.Chats.{chat_index_by_id}

abbrev pub same_bool : Bool → Bool → Bool
same_bool Bool.true b = b
same_bool Bool.false b = if b then Bool.false else Bool.true

-- The `less` of `sortChats`: pinned first, then the most recent first.
unfoldable pub before : Chat → Chat → Bool
before c d = if same_bool c.pinned d.pinned then ltb d.last_active c.last_active else c.pinned

unfoldable pub insert_chat : Chat → List Chat → List Chat
unfolding before
insert_chat c [] = c ∷ []
insert_chat c (d ∷ ds) = let rest = insert_chat c ds in if before d c then d ∷ rest else c ∷ d ∷ ds

unfoldable pub sort_chats : List Chat → List Chat
unfolding insert_chat
sort_chats [] = []
sort_chats (c ∷ cs) = insert_chat c (sort_chats cs)

-- `firstUnreadIndex`, none for -1.
unfoldable pub first_unread_from : ℕ → List Message → Option ℕ
first_unread_from i [] = none
first_unread_from i (m ∷ ms) =
    let rest = first_unread_from (suc i) ms in if m.is_unread then some i else rest

abbrev pub first_unread_index : List Message → Option ℕ
first_unread_index msgs = first_unread_from 0 msgs

-- `reselectByID`: the index of the chat, or 0.
unfoldable pub reselect_by_id : List Chat → String → ℕ
reselect_by_id chats id = elim (chat_index_by_id chats id) [ none ↦ 0 | some i ↦ i ]
