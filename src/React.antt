-- ===== src/React.antt =====
-- internal/ui/react.go: the reaction picker.
pub mod Toggle
use beeper_tui.Base.{
  ℕ, ◌+◌, ◌-◌, ◌%◌, ℤ, Bool, true, false, not, ◌&&◌, ◌||◌, String, ◌==◌, List, [], ◌∷◌, ◌++◌,
  Option, none, some, map, if◌then◌else◌, ltb, leb, eqb, any, keep, length, get_elem?, get_or, take,
  modify, lookup, trim_space, drop_last_rune, has_prefix, contains, pos, negsuc,
}
use Prim.Native.Char.{code}
use Prim.Native.String.{◌++◌ as concat, len}
use beeper_tui.Platform.{Platform}
use beeper_tui.Api.{Chat, Message, Reaction}
use beeper_tui.Model.{Model, Mode, conversation, Cmd, quit, react_to}
use beeper_tui.Media.{cursor_message}
use beeper_tui.Nav.Chats.{chat_index_by_id}

abbrev default_reactions : List String
default_reactions = "👍" ∷ "❤\u{fe0f}" ∷ "😂" ∷ "😮" ∷ "😢" ∷ []

abbrev pub max_react_slots : ℕ
max_react_slots = 9

abbrev pub member : String → List String → Bool
member k xs = any (λ x. x == k) xs

-- The open chat in the list.
unfoldable pub current_chat : Model → Option Chat
current_chat m = elim (chat_index_by_id m.chats m.current_chat_id) [
  | none ↦ none
  | some i ↦ get_elem? m.chats i
]

abbrev or_empty : Option String → String
or_empty none = ""
or_empty (some s) = s

-- `selfUserID`, the empty text when unknown.
unfoldable pub self_user_id : Model → String
unfolding current_chat
self_user_id m = elim (current_chat m) [
  | none ↦ ""
  | some c ↦ or_empty (lookup c.account_id m.self_users)
]

-- A loop of `reactSlots`: keys not seen before are added, up to the limit. The keys seen are those in
-- the slots.
unfoldable pub add_slots : List String → List String → List String
add_slots slots [] = slots
add_slots slots (k ∷ ks) =
    add_slots
      (if leb max_react_slots (length slots) || member k slots then slots else slots ++ k ∷ []) ks

abbrev reaction_keys : Option Message → List String
reaction_keys none = []
reaction_keys (some msg) = map (λ r. r.key) msg.reactions

abbrev presets : Option Chat → List String
presets none = default_reactions
presets (some c) = elim c.allowed_reactions [ [] ↦ default_reactions | _ ∷ _ ↦ c.allowed_reactions ]

-- `reactSlots`.
unfoldable pub react_slots : Model → List String
unfolding add_slots
react_slots m =
    add_slots (add_slots [] (reaction_keys (cursor_message m))) (presets (current_chat m))

-- `openReactPicker`.
unfoldable pub open_react_picker : Model → Model
open_react_picker m = elim m.messages [
  | [] ↦ m
  | _ ∷ _ ↦ record m { mode = Mode.react; react_input = ""; react_cand_idx = 0; react_err = none }
]

-- `looksEmoji`.
unfoldable pub looks_emoji : String → Bool
looks_emoji String.[] = false
looks_emoji (String.◌∷◌ c s) = ltb 0x2000 (code c) || looks_emoji s

abbrev own : String → String → Reaction → Bool
own key self r = r.key == key && r.participant_id == self

-- The reactions of a message after a toggle, and whether it was a removal.
unfoldable pub toggled : String → String → List Reaction → List Reaction × Bool
toggled key self rs =
    if not (self == "") && any (own key self) rs
    then (keep (λ r. not (own key self r)) rs, true)
    else (rs ++ record { key = key; emoji = looks_emoji key; participant_id = self } ∷ [], false)

-- `msg.Reactions = …` through the pointer into the conversation.
abbrev pub set_reactions : ℤ → List Reaction → List Message → List Message
set_reactions (negsuc _) rs msgs = msgs
set_reactions (pos i) rs msgs = modify msgs i (λ msg. record msg { reactions = rs })

-- `toggleReaction`.
unfoldable pub toggle_reaction : String → Model → Model × List Cmd
unfolding toggled
toggle_reaction key m = elim (cursor_message m) [
  | none ↦ (m, [])
  | some msg ↦
      let (rs, remove) = toggled key (self_user_id m) msg.reactions in
      (
        record m {
          messages = set_reactions m.msg_selected rs m.messages;
          mode = conversation;
          react_input = "";
        },
        react_to m.current_chat_id msg.id key remove ∷ [],
      )
]

abbrev pub max_emoji_candidates : ℕ
max_emoji_candidates = 5

-- The order of the emoji table: the length of the slug, then its characters.
slug_lt : String → String → Bool
slug_lt String.[] String.[] = false
slug_lt String.[] (String.◌∷◌ d t) = true
slug_lt (String.◌∷◌ c s) String.[] = false
slug_lt (String.◌∷◌ c s) (String.◌∷◌ d t) =
    let rest = slug_lt s t in if eqb (code c) (code d) then rest else ltb (code c) (code d)

slug_before : String → String → Bool
unfolding slug_lt
slug_before s t = if eqb (len s) (len t) then slug_lt s t else ltb (len s) (len t)

insert_entry : String × String → List (String × String) → List (String × String)
unfolding slug_before
insert_entry e [] = e ∷ []
insert_entry e (d ∷ ds) =
    let rest = insert_entry e ds in if slug_before d.0 e.0 then d ∷ rest else e ∷ d ∷ ds

-- `emojiEntries`: one entry for each slug, no skin tones, sorted.
unfoldable pub emoji_entries_from : List String → List (String × String) → List (String × String)
unfolding insert_entry
emoji_entries_from seen [] = []
emoji_entries_from seen ((slug, char) ∷ es) =
    let skip = member slug seen || contains "skin-tone" slug in
    let rest = emoji_entries_from (if skip then seen else slug ∷ seen) es in
    if skip then rest else insert_entry (slug, char) rest

-- `strings.ReplaceAll(s, " ", "-")`.
dash_spaces : String → String
dash_spaces String.[] = ""
dash_spaces (String.◌∷◌ c s) =
    let rest = dash_spaces s in if eqb (code c) 32 then concat "-" rest else String.◌∷◌ c rest

abbrev chars_where : (String → Bool) → List (String × String) → List String
chars_where p es = map (λ e. e.1) (keep (λ e. p e.0) es)

module _ ⦃platform : Platform⦄ where
  -- `emojiCandidates`: the exact tier, then the prefixes, then the other occurrences.
  unfoldable pub emoji_candidates : String → ℕ → List String
  unfolding emoji_entries_from dash_spaces
  emoji_candidates query max =
      let q = dash_spaces (platform.lower (trim_space query)) in
      let table = emoji_entries_from [] platform.all_emojis in
      let exact = chars_where (λ slug. slug == q) table in
      let prefix = chars_where (λ slug. not (slug == q) && has_prefix q slug) table in
      let inner =
        chars_where (λ slug. not (slug == q) && not (has_prefix q slug) && contains q slug) table in
      if q == "" || platform.contains_emoji q then [] else take max (exact ++ prefix ++ inner)

  abbrev candidates : Model → List String
  candidates m = emoji_candidates m.react_input max_emoji_candidates

  -- The enter key: the selected match, or the text as typed.
  abbrev send_typed : String → Model → Model × List Cmd
  send_typed k m = elim (emoji_candidates k max_emoji_candidates) [
    | [] ↦ toggle_reaction k m
    | c ∷ cs ↦ toggle_reaction (get_or (c ∷ cs) (m.react_cand_idx % length (c ∷ cs)) k) m
  ]

  -- `(idx + step) % n` for a list that is not empty.
  abbrev cycle_candidate : (ℕ → ℕ) → Model → Model
  cycle_candidate next m = elim (candidates m) [
    | [] ↦ m
    | _ ∷ _ ↦ record m { react_cand_idx = next (length (candidates m)) % length (candidates m) }
  ]

  -- The digit '1' to '9' that a text of one byte is, from 0.
  abbrev digit_slot : String → Option ℕ
  digit_slot String.[] = none
  digit_slot (String.◌∷◌ c s) =
      if s == "" && leb b'1' (code c) && leb (code c) b'9' then some (code c - b'1') else none

  abbrev pick_slot : ℕ → Model → Model × List Cmd
  pick_slot n m = elim (get_elem? (react_slots m) n) [
    | none ↦ (m, [])
    | some k ↦ toggle_reaction k m
  ]

  abbrev typed : Option ℕ → String → Model → Model × List Cmd
  typed none text m = (record m { react_input = concat m.react_input text; react_cand_idx = 0 }, [])
  typed (some n) text m = pick_slot n m

  -- `handleReactKey`.
  unfoldable pub handle_react_key : String → String → Model → Model × List Cmd
  handle_react_key key text m =
      if key == "ctrl+c"
      then (m, quit ∷ [])
      else if key == "esc"
      then (record m { mode = conversation; react_input = ""; react_cand_idx = 0 }, [])
      else if key == "enter"
      then (let k = trim_space m.react_input in if k == "" then (m, []) else send_typed k m)
      else if key == "tab"
      then (cycle_candidate (λ n. m.react_cand_idx + 1) m, [])
      else if key == "shift+tab"
      then (cycle_candidate (λ n. m.react_cand_idx + n - 1) m, [])
      else if key == "backspace"
      then (record m { react_input = drop_last_rune m.react_input; react_cand_idx = 0 }, [])
      else typed (if m.react_input == "" then digit_slot text else none) text m
