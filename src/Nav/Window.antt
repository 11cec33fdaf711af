-- ===== src/Nav/Window.antt =====
-- internal/ui/nav.go: the visible rows, the visible chats, and the scroll window that follows the
-- cursor. The numeric parts are functions of the heights `h`, the rows `vr` and the number of
-- messages, so that their laws do not mention the state.
pub mod Bottom
pub mod Scroll
use Prim.Native.Nat.{min}
use beeper_tui.Base.{
  ℕ, zero, suc, ◌+◌, ◌-◌, ℤ, pos, negsuc, Bool, true, false, ◌&&◌, ◌||◌, String, ◌==◌, List, [],
  ◌∷◌, Option, none, some, if◌then◌else◌, ltb, leb, eqb, length, contains,
}
use beeper_tui.Platform.{Platform}
use beeper_tui.Api.{Chat}
use beeper_tui.Tab.{includes}
use beeper_tui.Model.{
  Model, Mode, list, conversation, insert, search, react, chat, chat_insert, is_search,
}
use beeper_tui.View.{msg_lines}

-- `height - 2`, at least 1.
unfoldable pub visible_rows : Model → ℕ
visible_rows m = let r = m.height - 2 in if ltb r 1 then 1 else r

-- The loop of `maxMsgOffset` with `i + 1` messages left to look at.
unfoldable pub max_offset_loop : (ℕ → ℕ) → ℕ → ℕ → ℕ → ℕ → ℕ
max_offset_loop h vr n zero lines = 0
max_offset_loop h vr n (suc i) lines =
    let lines' = lines + h i in
    let rest = max_offset_loop h vr n i lines' in
    if ltb vr lines' then (if eqb i (n - 1) then i else i + 1) else rest

unfoldable pub max_msg_offset : Model → ℕ
max_msg_offset m =
    max_offset_loop (msg_lines m) (visible_rows m) (length m.messages) (length m.messages) 0

-- The lines of `n` messages from `a` on.
unfoldable pub lines_from : (ℕ → ℕ) → ℕ → ℕ → ℕ
lines_from h a zero = 0
lines_from h a (suc n) = h a + lines_from h (suc a) n

-- The loop `for i := a; i <= b && i < n; i++` of `linesBetween`.
unfoldable pub lines_between : (ℕ → ℕ) → ℕ → ℕ → ℕ → ℕ
lines_between h n a b = lines_from h a (min (b + 1) n - a)

-- `visibleChatIndexes`.
unfoldable pub indexes_where : (Chat → Bool) → ℕ → List Chat → List ℕ
indexes_where p i [] = []
indexes_where p i (c ∷ cs) = let rest = indexes_where p (suc i) cs in if p c then i ∷ rest else rest

-- `selectedVisibleChatPos`, none for -1.
unfoldable pub pos_of : ℕ → ℕ → List ℕ → Option ℕ
pos_of selected i [] = none
pos_of selected i (x ∷ xs) =
    let rest = pos_of selected (suc i) xs in if eqb x selected then some i else rest

unfoldable pub selected_visible_chat_pos : Model → List ℕ → Option ℕ
selected_visible_chat_pos m indexes = pos_of m.selected 0 indexes

-- The offset nearest to the old one that shows row `pos`.
unfoldable pub scroll_to : ℕ → ℕ → ℕ → ℕ
scroll_to row offset vr =
    let o = if ltb row offset then row else offset in if leb (o + vr) row then row + 1 - vr else o

-- The cursor moved into the `n` messages.
abbrev pub clamp_index : ℤ → ℕ → ℕ
clamp_index (negsuc _) n = 0
clamp_index (pos i) n = if ltb (n - 1) i then n - 1 else i

-- The loop that scrolls down until the cursor message fits, with the rounds that are left: the offset
-- never passes the cursor.
unfoldable pub scroll_down : (ℕ → ℕ) → ℕ → ℕ → ℕ → ℕ → ℕ → ℕ
scroll_down h vr n sel zero off = off
scroll_down h vr n sel (suc fuel) off =
    let rest = scroll_down h vr n sel fuel (off + 1) in
    if ltb off sel && ltb vr (lines_between h n off sel) then rest else off

-- The message offset after the clamp, for a cursor in range.
unfoldable pub clamp_offset : (ℕ → ℕ) → ℕ → ℕ → ℕ → ℕ → ℕ
clamp_offset h vr n sel off =
    let top = max_offset_loop h vr n n 0 in
    let o = if ltb top off then top else off in
    let o' = if ltb sel o then sel else o in scroll_down h vr n sel (sel - o') o'

abbrev pub clamp_list : Option ℕ → Model → Model
clamp_list none m = record m { offset = 0 }
clamp_list (some row) m = record m { offset = scroll_to row m.offset (visible_rows m) }

-- The cursor and the offset of a search with results.
abbrev pub place_search : Model → Model
place_search m =
    let n = length m.search_results in
    let sel = if ltb (n - 1) m.search_selected then n - 1 else m.search_selected in
    record m {
      search_selected = sel;
      search_offset = scroll_to sel m.search_offset (visible_rows m);
    }

abbrev pub clamp_search : Model → Model
clamp_search m =
    if eqb (length m.search_results) 0
    then record m { search_selected = 0; search_offset = 0 }
    else place_search m

-- The cursor and the offset of a conversation with messages.
abbrev pub place_cursor : Model → Model
place_cursor m =
    let n = length m.messages in
    let sel = clamp_index m.msg_selected n in
    record m {
      msg_selected = pos sel;
      msg_offset = clamp_offset (msg_lines m) (visible_rows m) n sel m.msg_offset;
    }

abbrev pub clamp_conversation : Model → Model
clamp_conversation m =
    if eqb (length m.messages) 0
    then record m { msg_selected = pos 0; msg_offset = 0 }
    else place_cursor m

module _ ⦃platform : Platform⦄ where
  -- The search filter: the query occurs in the title or the network, in lower case.
  abbrev pub search_matches : String → Chat → Bool
  search_matches query c =
      let q = platform.lower query in
      contains q (platform.lower c.title) || contains q (platform.lower c.network)

  unfoldable pub visible_chat_indexes : Model → List ℕ
  visible_chat_indexes m =
      if is_search m.mode && (if m.search_query == "" then false else true)
      then indexes_where (search_matches m.search_query) 0 m.chats
      else indexes_where (includes m.tab) 0 m.chats

  abbrev pub clamp_mode : Mode → Model → Model
  clamp_mode list m = clamp_list (selected_visible_chat_pos m (visible_chat_indexes m)) m
  clamp_mode search m = clamp_search m
  clamp_mode conversation m = clamp_conversation m
  clamp_mode insert m = m
  clamp_mode react m = m
  clamp_mode chat m = m
  clamp_mode chat_insert m = m

  -- `clampWindow`.
  unfoldable pub clamp_window : Model → Model
  clamp_window m = clamp_mode m.mode m
