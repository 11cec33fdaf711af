-- ===== src/Tools/Resolve.antt =====
-- internal/ui/chattools.go: the chat or the person that the model means.
use beeper_tui.Base.{
  ℕ, Bool, ◌||◌, String, ◌==◌, List, [], ◌∷◌, ◌++◌, Option, none, some, Result, ok, error,
  or_zero_value, map, if◌then◌else◌, take, get_elem?, trim_space, contains, texts, join,
}
use beeper_tui.Platform.{Platform}
use beeper_tui.Api.{Chat}
use beeper_tui.Identity.Person.{Person}
use beeper_tui.Identity.Policy.{MergePolicy}
use beeper_tui.Identity.Build.{build_with_policy}
use beeper_tui.Identity.Search.{match_strings, search, candidates}
use beeper_tui.Tools.{ToolsApi}

-- The chats at some indices.
abbrev pub at_indices : List Chat → List ℕ → List Chat
at_indices chats [] = []
at_indices chats (i ∷ is) = elim (get_elem? chats i) [
  | none ↦ at_indices chats is
  | some c ↦ c ∷ at_indices chats is
]

abbrev pub titles_of : List Chat → List String
titles_of chats = map (λ (c : Chat). c.title) chats

-- What the titles that were found resolve to: the one chat, or at most 8 titles to choose from.
abbrev pub only_or_names : List Chat → Option Chat × List String
only_or_names [] = (none, [])
only_or_names (c ∷ []) = (some c, [])
only_or_names (c ∷ d ∷ cs) = (none, take 8 (titles_of (c ∷ d ∷ cs)))

-- An answer, or the next one where it has neither a chat nor titles.
abbrev pub or_else :
    Option Chat × List String → Option Chat × List String → Option Chat × List String
or_else (some c, names) next = (some c, names)
or_else (none, n ∷ names) next = (none, n ∷ names)
or_else (none, []) next = next

module _ ⦃platform : Platform⦄ where
  -- A chat at which the loop of `resolveChat` stops.
  abbrev pub is_exact : String → Chat → Bool
  is_exact key c = c.id == key || platform.lower c.title == platform.lower (trim_space key)

  abbrev pub has_part : String → Chat → Bool
  has_part key c = contains (platform.lower (trim_space key)) (platform.lower c.title)

  -- The rest of `resolveChat`, with the chats whose titles contain the key.
  abbrev pub resolve_sub : List Chat → String → List Chat → Option Chat × List String
  resolve_sub chats key [] = only_or_names (at_indices chats (match_strings key (titles_of chats)))
  resolve_sub chats key (c ∷ cs) = only_or_names (c ∷ cs)

  -- The loop of `resolveChat` over the chats that are left.
  unfoldable pub resolve_from :
      List Chat → String → List Chat → List Chat → Option Chat × List String
  resolve_from chats key sub [] = resolve_sub chats key sub
  resolve_from chats key sub (c ∷ cs) =
      let rest = resolve_from chats key (if has_part key c then sub ++ c ∷ [] else sub) cs in
      if is_exact key c then (some c, []) else rest

  -- `resolveChat`.
  unfoldable pub resolve_chat : List Chat → String → Option Chat × List String
  unfolding resolve_from
  resolve_chat chats key = resolve_from chats key [] chats

  module _ ⦃api : ToolsApi⦄ where
    -- What `resolveChatFull` makes of the chats that the server found.
    unfoldable pub resolve_searched : List Chat → String → Option Chat × List String
    resolve_searched [] key = (none, [])
    resolve_searched (c ∷ cs) key = or_else (resolve_chat (c ∷ cs) key) (only_or_names (c ∷ cs))

    -- `resolveChatFull`.
    unfoldable pub resolve_chat_full : List Chat → String → Option Chat × List String
    unfolding resolve_searched
    resolve_chat_full chats key =
        or_else (resolve_chat chats key)
          (resolve_searched (or_zero_value [] (api.search_chats key)) key)

    -- The answer of `resolvePerson` where the search found nobody, with the quotes of `%q` and not
    -- its escapes.
    abbrev choose_candidate : String → List Person → Result Person
    choose_candidate name [] = error (texts ("no person matches \"" ∷ name ∷ "\"" ∷ []))
    choose_candidate name (p ∷ []) = ok p
    choose_candidate name (p ∷ q ∷ ps) = error (
        texts (
          "\""
          ∷ name
          ∷ "\" matches several people: "
          ∷ join (map (λ (r : Person). r.name) (p ∷ q ∷ ps)) ", "
          ∷ " — ask which one"
          ∷ []))

    -- `resolvePerson`, with the policy that the index leaves.
    unfoldable pub resolve_person : Option MergePolicy → String → Result Person × Option MergePolicy
    resolve_person merges name = elim api.list_chats [
      | error e ↦ (error e, merges)
      | ok chats ↦
          let (people, left) =
            build_with_policy (chats ++ or_zero_value [] (api.search_chats name))
              (or_zero_value [] api.list_contacts) merges in
          (
            elim (search name 1 people) [
              | p ∷ ps ↦ ok p
              | [] ↦ choose_candidate name (candidates name people)
            ],
            left,
          )
    ]
