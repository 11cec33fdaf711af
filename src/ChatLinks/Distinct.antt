-- ===== src/ChatLinks/Distinct.antt =====
-- internal/ui/chatlinks.go: at most one link for each conversation.
use beeper_tui.Base.{
  ◌≡◌, refl, sym, ap, ◌∙◌, ℕ, ◌+◌, ◌≤◌, Bool, true, false, ◌||◌, String, ◌==◌, List, [], ◌∷◌, ◌++◌,
  Option, none, some, map, sort_by, insert_by, if◌then◌else◌, ltb, byte_len, Bool-cases, inl, inr,
  arith, trim_space, eq_iff,
}
use beeper_tui.Platform.{Platform}
use beeper_tui.Api.{Chat}
use beeper_tui.Model.{ChatLink}
use beeper_tui.Identity.Person.{Person}
use beeper_tui.Identity.Build.{build}
use beeper_tui.ChatLinks.{
  Hit, Hits, is_seen, add_hit, stays_behind, oldest_first, in_order, mention, add_link, add_people,
  add_chats, find_hits, find_chat_links, newest_chat, no_chats, active_times,
}

-- How many links open a chat.
abbrev pub links_to : String → List ChatLink → ℕ
links_to id [] = 0
links_to id (l ∷ ls) = (if l.chat_id == id then 1 else 0) + links_to id ls

abbrev hits_on : String → List Hit → ℕ
hits_on id [] = 0
hits_on id (h ∷ hs) = (if h.link.chat_id == id then 1 else 0) + hits_on id hs

links_to-hits :
    (id : String) (hs : List Hit) → links_to id (map (λ (h : Hit). h.link) hs) ≡ hits_on id hs
links_to-hits id [] = refl
links_to-hits id (h ∷ hs) = omega (arith, links_to-hits id hs)

hits_on-insert :
    (id : String) (x : Hit) (hs : List Hit)
    → hits_on id (insert_by stays_behind x hs) ≡ hits_on id (x ∷ hs)
unfolding insert_by
hits_on-insert id x [] = refl
hits_on-insert id x (y ∷ ys) = elim (Bool-cases (stays_behind y x)) [
  | inl behind ↦ rw (behind) (omega (arith, hits_on-insert id x ys))
  | inr ahead ↦ rw (ahead) refl
]

hits_on-sort : (id : String) (hs : List Hit) → hits_on id (sort_by stays_behind hs) ≡ hits_on id hs
unfolding sort_by
hits_on-sort id [] = refl
hits_on-sort id (h ∷ hs) =
    omega (arith, hits_on-insert id h (sort_by stays_behind hs), hits_on-sort id hs)

hits_on-append :
    (id : String) (xs ys : List Hit) → hits_on id (xs ++ ys) ≡ hits_on id xs + hits_on id ys
hits_on-append id [] ys = omega arith
hits_on-append id (x ∷ xs) ys = omega (arith, hits_on-append id xs ys)

hits_on-oldest : (id : String) (hs : List Hit) → hits_on id (oldest_first hs) ≡ hits_on id hs
hits_on-oldest id [] = refl
hits_on-oldest id (h ∷ hs) =
    omega (arith, hits_on-append id (oldest_first hs) (h ∷ []), hits_on-oldest id hs)

links_to-in_order : (id : String) (hs : List Hit) → links_to id (in_order hs) ≡ hits_on id hs
unfolding in_order
links_to-in_order id hs =
    links_to-hits id (oldest_first (sort_by stays_behind hs))
    ∙ hits_on-oldest id (sort_by stays_behind hs)
    ∙ hits_on-sort id hs

-- A chat has at most one hit, it has one only when it is seen, and the empty ID has none.
IsSingle : String → Hits → Type 0
IsSingle id h =
    (hits_on id h.hits ≤ 1)
    × (is_seen id h.seen ≡ false → hits_on id h.hits ≡ 0)
    × (hits_on "" h.hits ≡ 0)

same_id : (a b : String) → (a == b) ≡ true → a ≡ b
same_id a b h = (eq_iff a b).0 h

both_false : (a b c : Bool) → (a || b || c) ≡ false → (c ≡ false) × (b ≡ false)
both_false a b c h = ground arith

add_hit-IsSingle :
    (id new : String) (found : Option (ℕ × String)) (h : Hits)
    → is_seen new h.seen ≡ false
    → (new == "") ≡ false
    → IsSingle id h
    → IsSingle id (add_hit new found h)
unfolding add_hit IsSingle
add_hit-IsSingle id new none h unseen full (p, q, e) = (p, q, e)
add_hit-IsSingle id new (some f) h unseen full (p, q, e) = elim (Bool-cases (new == id)) [
  | inl same ↦
      let none_yet = q (ap (λ k. is_seen k h.seen) (sym (same_id new id same)) ∙ unseen) in
      rw (same, full) (omega (arith, none_yet), λ s. ground arith, omega (arith, e))
  | inr other ↦ rw (other, full) (omega (arith, p), λ s. omega (arith, q s), omega (arith, e))
]

-- What `add` does where it adds nothing, and where it adds a hit.
add_link-IsSingle :
    ⦃platform : Platform⦄ (id low name new : String) (h : Hits)
    → IsSingle id h
    → IsSingle id (add_link low name new h)
unfolding add_link
add_link-IsSingle id low name new h single =
    elim (Bool-cases (ltb (byte_len name) 3 || new == "" || is_seen new h.seen)) [
      | inl left_out ↦ rw (left_out) single
      | inr added ↦
          let (unseen, full) = both_false _ _ _ added in
          rw (added) (add_hit-IsSingle id new (mention low name) h unseen full single)
    ]

module _ ⦃platform : Platform⦄ (id low : String) where
  add_people-IsSingle :
      (times : List (String × ℕ)) (ps : List Person) (h : Hits)
      → IsSingle id h
      → IsSingle id (add_people low times ps h)
  unfolding add_people
  add_people-IsSingle times [] h single = single
  add_people-IsSingle times (p ∷ ps) h single =
      add_people-IsSingle times ps _
        (add_link-IsSingle id low p.name (newest_chat p.chats times) h single)

  add_chats-IsSingle :
      (cs : List Chat) (h : Hits) → IsSingle id h → IsSingle id (add_chats low cs h)
  unfolding add_chats
  add_chats-IsSingle [] h single = single
  add_chats-IsSingle (c ∷ cs) h single =
      add_chats-IsSingle cs _ (add_link-IsSingle id low c.title c.id h single)

nothing-IsSingle : (id : String) → IsSingle id (record { seen = []; hits = [] })
unfolding IsSingle
nothing-IsSingle id = (omega arith, λ s. refl, refl)

find_hits-IsSingle :
    ⦃platform : Platform⦄ (id text : String) (chats : List Chat)
    → IsSingle id (find_hits text chats)
unfolding find_hits
find_hits-IsSingle ⦃platform = platform⦄ id text chats = add_chats-IsSingle id _ chats _ (
    add_people-IsSingle id (platform.lower text) (active_times chats []) (build chats []) _
      (nothing-IsSingle id))

-- The links of an answer open distinct conversations: whatever people and titles it mentions, no
-- chat has two links, and no link is without a chat.
pub find_chat_links-distinct :
    ⦃platform : Platform⦄ (text : String) (chats : List Chat) (id : String)
    → (links_to id (find_chat_links text chats) ≤ 1)
      × (links_to "" (find_chat_links text chats) ≡ 0)
unfolding find_chat_links IsSingle
find_chat_links-distinct text chats id =
    elim (Bool-cases (trim_space text == "" || no_chats chats)) [
      | inl blank ↦ rw (blank) (omega arith, refl)
      | inr full ↦
          let (few, seen, unnamed) = find_hits-IsSingle id text chats in
          rw (full) (
            omega (arith, few, links_to-in_order id (find_hits text chats).hits),
            links_to-in_order "" (find_hits text chats).hits ∙ unnamed,
          )
    ]
