-- ===== src/ChatLinks/Appearance.antt =====
-- internal/ui/chatlinks.go: where the links stand in the answer, and their order.
use beeper_tui.Base.{
  ◌≡◌, refl, ℕ, ◌≤◌, ◌||◌, String, ◌==◌, List, [], ◌∷◌, ◌++◌, Option, none, some, map, sort_by,
  insert_by, ltb, byte_len, Bool-cases, ltb→lt, ltb→ge, inl, inr, arith, trim_space, All,
  All-append, All-insert_by, All-sort_by,
}
use beeper_tui.Platform.{Platform}
use beeper_tui.Api.{Chat}
use beeper_tui.Identity.Person.{Person}
use beeper_tui.Identity.Build.{build}
use beeper_tui.ChatLinks.{
  Hit, Hits, is_seen, add_hit, stays_behind, oldest_first, in_order, mention, add_link, add_people,
  add_chats, find_hits, find_chat_links, newest_chat, no_chats, active_times,
}

-- Each hit stands at or before those after it, and the other way round.
abbrev pub IsAscending : List Hit → Type 0
IsAscending [] = Unit
IsAscending (h ∷ hs) = All (λ (k : Hit). h.pos ≤ k.pos) hs × IsAscending hs

abbrev IsDescending : List Hit → Type 0
IsDescending [] = Unit
IsDescending (h ∷ hs) = All (λ (k : Hit). k.pos ≤ h.pos) hs × IsDescending hs

All-raise :
    (a b : ℕ) (hs : List Hit)
    → a ≤ b
    → All (λ (k : Hit). k.pos ≤ a) hs
    → All (λ (k : Hit). k.pos ≤ b) hs
All-raise a b [] h k = tt
All-raise a b (x ∷ xs) h k = (omega (arith, k.0, h), All-raise a b xs h k.1)

insert_by-IsDescending :
    (x : Hit) (hs : List Hit) → IsDescending hs → IsDescending (insert_by stays_behind x hs)
unfolding insert_by
insert_by-IsDescending x [] d = (tt, tt)
insert_by-IsDescending x (y ∷ ys) d = elim (Bool-cases (stays_behind y x)) [
  | inl behind ↦ rw (behind) (
    All-insert_by stays_behind (λ (k : Hit). k.pos ≤ y.pos) x ys
        (omega (arith, ltb→lt x.pos y.pos behind)) d.0,
    insert_by-IsDescending x ys d.1,
  )
  | inr ahead ↦
      let le = ltb→ge x.pos y.pos ahead in rw (ahead) ((le, All-raise y.pos x.pos ys le d.0), d)
]

sort_by-IsDescending : (hs : List Hit) → IsDescending (sort_by stays_behind hs)
unfolding sort_by
sort_by-IsDescending [] = tt
sort_by-IsDescending (h ∷ hs) =
    insert_by-IsDescending h (sort_by stays_behind hs) (sort_by-IsDescending hs)

All-oldest : (P : Hit → Type 0) (hs : List Hit) → All P hs → All P (oldest_first hs)
All-oldest P [] a = tt
All-oldest P (h ∷ hs) a = All-append P (oldest_first hs) (h ∷ []) (All-oldest P hs a.1) (a.0, tt)

append-IsAscending :
    (x : Hit) (hs : List Hit)
    → All (λ (k : Hit). k.pos ≤ x.pos) hs
    → IsAscending hs
    → IsAscending (hs ++ x ∷ [])
append-IsAscending x [] a i = (tt, tt)
append-IsAscending x (h ∷ hs) a i = (
  All-append (λ (k : Hit). h.pos ≤ k.pos) hs (x ∷ []) i.0 (a.0, tt),
  append-IsAscending x hs a.1 i.1,
)

oldest_first-IsAscending : (hs : List Hit) → IsDescending hs → IsAscending (oldest_first hs)
oldest_first-IsAscending [] d = tt
oldest_first-IsAscending (h ∷ hs) d =
    append-IsAscending h (oldest_first hs) (All-oldest (λ (k : Hit). k.pos ≤ h.pos) hs d.0)
      (oldest_first-IsAscending hs d.1)

module _ ⦃platform : Platform⦄ where
  -- The text mentions the name of a person or a chat at the hit, spelled as in the link.
  unfoldable pub IsMentioned : String → Hit → Type 0
  IsMentioned low h = (name : String) × (mention low name ≡ some (h.pos, h.link.name))

  add_hit-IsMentioned :
      (low name id : String) (found : Option (ℕ × String)) (h : Hits)
      → mention low name ≡ found
      → All (IsMentioned low) h.hits
      → All (IsMentioned low) (add_hit id found h).hits
  unfolding add_hit IsMentioned
  add_hit-IsMentioned low name id none h e a = a
  add_hit-IsMentioned low name id (some f) h e a = ((name, e), a)

  add_link-IsMentioned :
      (low name id : String) (h : Hits)
      → All (IsMentioned low) h.hits
      → All (IsMentioned low) (add_link low name id h).hits
  unfolding add_link
  add_link-IsMentioned low name id h a =
      elim (Bool-cases (ltb (byte_len name) 3 || id == "" || is_seen id h.seen)) [
        | inl left_out ↦ rw (left_out) a
        | inr added ↦ rw (added) (add_hit-IsMentioned low name id (mention low name) h refl a)
      ]

  add_people-IsMentioned :
      (low : String) (times : List (String × ℕ)) (ps : List Person) (h : Hits)
      → All (IsMentioned low) h.hits
      → All (IsMentioned low) (add_people low times ps h).hits
  unfolding add_people
  add_people-IsMentioned low times [] h a = a
  add_people-IsMentioned low times (p ∷ ps) h a =
      add_people-IsMentioned low times ps _
        (add_link-IsMentioned low p.name (newest_chat p.chats times) h a)

  add_chats-IsMentioned :
      (low : String) (cs : List Chat) (h : Hits)
      → All (IsMentioned low) h.hits
      → All (IsMentioned low) (add_chats low cs h).hits
  unfolding add_chats
  add_chats-IsMentioned low [] h a = a
  add_chats-IsMentioned low (c ∷ cs) h a =
      add_chats-IsMentioned low cs _ (add_link-IsMentioned low c.title c.id h a)

  find_hits-IsMentioned :
      (text : String) (chats : List Chat)
      → All (IsMentioned (platform.lower text)) (find_hits text chats).hits
  unfolding find_hits
  find_hits-IsMentioned text chats =
      add_chats-IsMentioned _ chats _
        (add_people-IsMentioned (platform.lower text) (active_times chats []) (build chats []) _ tt)

  -- The links of an answer are listed by where it mentions the names that they show: they are the
  -- links of hits whose positions ascend, and for each hit there is a name for which the scan of the
  -- text finds that position and the name that the link shows.
  pub find_chat_links-IsAscending :
      (text : String) (chats : List Chat)
      → (hs : List Hit) × (find_chat_links text chats ≡ map (λ (h : Hit). h.link) hs)
        × IsAscending hs
        × All (IsMentioned (platform.lower text)) hs
  unfolding find_chat_links in_order
  find_chat_links-IsAscending text chats =
      elim (Bool-cases (trim_space text == "" || no_chats chats)) [
        | inl blank ↦ ([], rw (blank) refl, tt, tt)
        | inr full ↦
            let hits = (find_hits text chats).hits in
            (
              oldest_first (sort_by stays_behind hits),
              rw (full) refl,
              oldest_first-IsAscending _ (sort_by-IsDescending hits),
              All-oldest _ _ (All-sort_by stays_behind _ hits (find_hits-IsMentioned text chats)),
            )
      ]
