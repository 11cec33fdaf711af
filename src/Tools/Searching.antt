-- ===== src/Tools/Searching.antt =====
-- internal/ui/chattools.go: searching the messages for the assistant.
pub mod Merging
use beeper_tui.Base.{
  ℤ, pos, negsuc, ℕ, zero, suc, Bool, true, false, not, ◌&&◌, ◌||◌, String, ◌==◌, List, [], ◌∷◌,
  ◌++◌, Option, none, some, Result, ok, error, ◌>>=◌, or_zero_value, map, any, keep, take, length,
  if◌then◌else◌, ltb, leb, eqb, trim_space, fields, byte_len, texts, lookup, insert,
}
use beeper_tui.Platform.{Platform}
use beeper_tui.Api.{Chat, Message, MessageSearchResult}
use beeper_tui.Messages.{truncate}
use beeper_tui.Tools.{ToolsApi, SearchQuery}

-- A count of 1 or more, or the default.
abbrev pub positive_or : ℕ → ℤ → ℕ
positive_or default (pos zero) = default
positive_or default (pos (suc n)) = suc n
positive_or default (negsuc n) = default

abbrev pub append_all {ℓ} : {A : Type ℓ} → List (List A) → List A
append_all [] = []
append_all (xs ∷ xss) = xs ++ append_all xss

module _ ⦃platform : Platform⦄ where
  -- The loop of `searchQueryWords`.
  distinct_words : List String → List String → List String
  distinct_words seen [] = []
  distinct_words seen (w ∷ ws) =
      let is_new = leb 3 (byte_len w) && not (any (λ k. k == platform.lower w) seen) in
      let rest = distinct_words (if is_new then platform.lower w ∷ seen else seen) ws in
      if is_new then w ∷ rest else rest

  abbrev or_whole : String → List String → List String
  or_whole q [] = q ∷ []
  or_whole q (w ∷ ws) = w ∷ ws

  -- `searchQueryWords`.
  unfoldable pub search_query_words : String → List String
  unfolding distinct_words
  search_query_words query =
      let q = trim_space query in
      if q == ""
      then []
      else if eqb (length (fields q)) 1
      then fields q
      else or_whole q (distinct_words [] (fields q))

module _ ⦃api : ToolsApi⦄ where
  -- The key of one hit in `mergeSearchResults`.
  abbrev pub hit_key : MessageSearchResult → String
  hit_key r =
      if r.message.id == ""
      then texts (
          r.message.chat_id
          ∷ "\0"
          ∷ api.full_time_text r.message.timestamp
          ∷ "\0"
          ∷ r.message.text
          ∷ [])
      else r.message.id

  -- The loops of `mergeSearchResults`: a hit whose key was seen is dropped.
  unfoldable pub distinct_hits : List String → List MessageSearchResult → List MessageSearchResult
  distinct_hits seen [] = []
  distinct_hits seen (r ∷ rs) =
      let is_new = not (any (λ k. k == hit_key r) seen) in
      let rest = distinct_hits (if is_new then hit_key r ∷ seen else seen) rs in
      if is_new then r ∷ rest else rest

  -- `mergeSearchResults`.
  unfoldable pub merge_search_results :
      List (List MessageSearchResult) → ℤ → List MessageSearchResult
  merge_search_results sets limit =
      take (positive_or 20 limit) (api.newest_first (distinct_hits [] (append_all sets)))

  -- One search for each word; the first error ends them.
  search_each : SearchQuery → List String → Result (List (List MessageSearchResult))
  search_each q [] = ok []
  search_each q (w ∷ ws) =
      let rest = search_each q ws in
      api.search_messages_filtered (record q { query = w })
      >>= (λ hits. rest >>= (λ sets. ok (hits ∷ sets)))

  -- `searchMessages`.
  unfoldable pub search_messages :
      ⦃platform : Platform⦄ → SearchQuery → Result (List MessageSearchResult)
  unfolding search_each
  search_messages q =
      let words = search_query_words q.query in
      if leb (length words) 1
      then api.search_messages_filtered q
      else search_each q words >>= (λ sets. ok (merge_search_results sets q.limit))

-- `senderLabel`.
unfoldable pub sender_label : Message → String
sender_label msg =
    if msg.is_from_me then "me" else if msg.sender_name == "" then "?" else msg.sender_name

-- `chatTitleIn`, of the chats by their IDs.
unfoldable pub chat_title_in : List (String × String) → String → String
chat_title_in titles id = elim (lookup id titles) [ none ↦ id | some t ↦ t ]

-- `titles`, a later chat of an ID before an earlier one.
unfoldable pub titles_by_id : List Chat → List (String × String) → List (String × String)
titles_by_id [] m = m
titles_by_id (c ∷ cs) m = titles_by_id cs (insert c.id c.title m)
