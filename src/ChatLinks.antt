-- ===== src/ChatLinks.antt =====
-- internal/ui/chatlinks.go: the conversations that an answer mentions. A position in a text is
-- counted in bytes, and a text is read by code points, which is the same for texts in UTF-8 and a
-- needle that is not empty.
pub mod Appearance
pub mod Distinct
use beeper_tui.Base.{
  ℕ, zero, suc, ◌+◌, ◌-◌, Bool, true, false, not, ◌&&◌, ◌||◌, String, ◌==◌, List, [], ◌∷◌, ◌++◌,
  Option, none, some, map, any, insert, lookup, if◌then◌else◌, eqb, leb, ltb, byte_len, rune_len,
  has_prefix, trim_space, sort_by,
}
use Prim.Native.Char.{code}
use beeper_tui.Platform.{Platform}
use beeper_tui.Api.{Chat}
use beeper_tui.Model.{ChatLink}
use beeper_tui.Contacts.{same_number}
use beeper_tui.Identity.Handle.{is_digit, digits_only, is_handle_like}
use beeper_tui.Identity.Person.{Person, ChatRef}
use beeper_tui.Identity.Build.{build}

-- `isWordByte`, of a code point: the bytes of one above 127 are no word bytes.
abbrev pub is_word_byte : ℕ → Bool
is_word_byte c =
    (leb b'a' c && leb c b'z') || (leb b'A' c && leb c b'Z') || (leb b'0' c && leb c b'9')

-- Whether a text goes on with the needle, and no word byte stands after it.
abbrev ends_here : String → String → Bool
ends_here String.[] String.[] = true
ends_here String.[] (String.◌∷◌ c s) = not (is_word_byte (code c))
ends_here (String.◌∷◌ d needle) String.[] = false
ends_here (String.◌∷◌ d needle) (String.◌∷◌ c s) = eqb (code d) (code c) && ends_here needle s

-- The loop of `wordIndex`, at a position, with whether a word byte stands before it.
unfoldable pub word_index_from : ℕ → Bool → String → String → Option ℕ
word_index_from pos inside String.[] needle =
    if ends_here needle "" && not inside then some pos else none
word_index_from pos inside (String.◌∷◌ c s) needle =
    let rest = word_index_from (pos + rune_len (code c)) (is_word_byte (code c)) s needle in
    if ends_here needle (String.◌∷◌ c s) && not inside then some pos else rest

-- `wordIndex`, none for -1.
unfoldable pub word_index : String → String → Option ℕ
unfolding word_index_from
word_index haystack needle = word_index_from 0 false haystack needle

-- The class `[0-9 ().-]` of `phoneSpan`.
abbrev is_span_char : ℕ → Bool
is_span_char c = is_digit c || eqb c b' ' || eqb c b'(' || eqb c b')' || eqb c b'.' || eqb c b'-'

-- The longest prefix of such characters that ends in a digit.
unfoldable pub digit_run : String → String
digit_run String.[] = ""
digit_run (String.◌∷◌ c s) =
    let rest = digit_run s in
    if is_span_char (code c) && (is_digit (code c) || not (rest == ""))
    then String.◌∷◌ c rest
    else ""

-- The match of `phoneSpan` without its `+` at the start of a text: a digit, four or more characters
-- and a digit.
unfoldable pub digit_span : String → Option String
unfolding digit_run
digit_span String.[] = none
digit_span (String.◌∷◌ c s) =
    if is_digit (code c) && leb 5 (byte_len (digit_run s))
    then some (String.◌∷◌ c (digit_run s))
    else none

-- The match of `phoneSpan` at the start of a text.
unfoldable pub phone_span : String → Option String
unfolding digit_span
phone_span String.[] = none
phone_span (String.◌∷◌ c s) =
    if eqb (code c) b'+'
    then elim (digit_span s) [ none ↦ none | some span ↦ some (String.◌∷◌ c span) ]
    else digit_span (String.◌∷◌ c s)

-- `phoneSpan.FindAllStringIndex`: the spans with their positions. The first argument says how many
-- characters of the last span are still to be passed over.
unfoldable pub phone_spans : ℕ → ℕ → String → List (ℕ × String)
unfolding phone_span
phone_spans skip pos String.[] = []
phone_spans (suc skip) pos (String.◌∷◌ c s) = phone_spans skip (pos + rune_len (code c)) s
phone_spans zero pos (String.◌∷◌ c s) = elim (phone_span (String.◌∷◌ c s)) [
  | none ↦ phone_spans 0 (pos + rune_len (code c)) s
  | some span ↦ (pos, span) ∷ phone_spans (byte_len span - 1) (pos + rune_len (code c)) s
]

-- The loop of `digitAlias`.
abbrev same_span : String → List (ℕ × String) → Option (ℕ × String)
same_span want [] = none
same_span want (s ∷ ss) =
    let rest = same_span want ss in if same_number (digits_only s.1) want then some s else rest

-- `digitAlias`, none for the position -1.
unfoldable pub digit_alias : String → String → Option (ℕ × String)
unfolding phone_spans
digit_alias text name =
    let want = digits_only name in
    if ltb (byte_len want) 7 then none else same_span want (phone_spans 0 0 text)

-- `lastActive`.
unfoldable pub active_times : List Chat → List (String × ℕ) → List (String × ℕ)
active_times [] m = m
active_times (c ∷ cs) m = active_times cs (insert c.id c.last_active m)

abbrev active_at : List (String × ℕ) → String → ℕ
active_at times id = elim (lookup id times) [ none ↦ 0 | some at ↦ at ]

-- The loop of `newestChat`, with the best chat so far.
unfoldable pub newest_from : List (String × ℕ) → String × ℕ → List ChatRef → String
newest_from times best [] = best.0
newest_from times best (r ∷ rs) =
    newest_from times
      (if best.0 == "" || ltb best.1 (active_at times r.id)
        then (r.id, active_at times r.id)
        else best)
      rs

-- `newestChat`.
unfoldable pub newest_chat : List ChatRef → List (String × ℕ) → String
unfolding newest_from
newest_chat refs times = newest_from times ("", 0) refs

-- A `hit`, and what `add` keeps: the chats that have a link, and the hits, the last one first.
pub record Hit : Type 0 where
  pub pos : ℕ
  pub link : ChatLink

pub record Hits : Type 0 where
  pub seen : List String
  pub hits : List Hit

abbrev pub is_seen : String → List String → Bool
is_seen id seen = any (λ s. s == id) seen

-- The end of `add`, with the position and the name that were found.
unfoldable pub add_hit : String → Option (ℕ × String) → Hits → Hits
add_hit id none h = h
add_hit id (some found) h = record {
  seen = id ∷ h.seen;
  hits = record { pos = found.0; link = record { name = found.1; chat_id = id } } ∷ h.hits;
}

-- Adjacent hits are swapped while the later one has the smaller position.
abbrev pub stays_behind : Hit → Hit → Bool
stays_behind a b = ltb b.pos a.pos

abbrev pub oldest_first : {A : Type 0} → List A → List A
oldest_first [] = []
oldest_first (x ∷ xs) = oldest_first xs ++ x ∷ []

-- The hits in order, as links.
unfoldable pub in_order : List Hit → List ChatLink
in_order hits = map (λ (h : Hit). h.link) (oldest_first (sort_by stays_behind hits))

-- `len(chats) == 0`.
abbrev pub no_chats : List Chat → Bool
no_chats [] = true
no_chats (c ∷ cs) = false

module _ ⦃platform : Platform⦄ where
  -- Where a name stands in the text, and how it is spelled there.
  unfoldable pub mention : String → String → Option (ℕ × String)
  unfolding word_index digit_alias
  mention low name = elim (word_index low (platform.lower name)) [
    | some pos ↦ some (pos, name)
    | none ↦ if is_handle_like name then digit_alias low name else none
  ]

  -- `add` of `findChatLinks`.
  unfoldable pub add_link : String → String → String → Hits → Hits
  unfolding mention add_hit
  add_link low name id h =
      if ltb (byte_len name) 3 || id == "" || is_seen id h.seen
      then h
      else add_hit id (mention low name) h

  -- The loops over the people and over the chats.
  unfoldable pub add_people : String → List (String × ℕ) → List Person → Hits → Hits
  unfolding add_link
  add_people low times [] h = h
  add_people low times (p ∷ ps) h =
      add_people low times ps (add_link low p.name (newest_chat p.chats times) h)

  unfoldable pub add_chats : String → List Chat → Hits → Hits
  unfolding add_link
  add_chats low [] h = h
  add_chats low (c ∷ cs) h = add_chats low cs (add_link low c.title c.id h)

  -- The hits of a text.
  unfoldable pub find_hits : String → List Chat → Hits
  unfolding add_people add_chats
  find_hits text chats =
      let low = platform.lower text in
      add_chats low chats
        (add_people low (active_times chats []) (build chats []) (record { seen = []; hits = [] }))

  -- `findChatLinks`.
  unfoldable pub find_chat_links : String → List Chat → List ChatLink
  unfolding find_hits in_order
  find_chat_links text chats =
      if trim_space text == "" || no_chats chats then [] else in_order (find_hits text chats).hits
