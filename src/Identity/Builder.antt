-- ===== src/Identity/Builder.antt =====
-- internal/identity/identity.go: the builder. A `*Person` is an index into the list of all people ever
-- made, and the merge links are the `parent` fields, none for nil.
pub mod Links
pub mod Forest
pub mod Merging
pub mod Keys
use beeper_tui.Base.{
  ℕ, zero, suc, Bool, true, false, not, ◌&&◌, ◌||◌, String, ◌==◌, List, [], ◌∷◌, ◌++◌, Option, none,
  some, if◌then◌else◌, ltb, leb, eqb, any, length, get_elem?, modify, lookup, insert, trim_space,
}
use Prim.Native.String.{◌++◌ as concat, len}
use beeper_tui.Platform.{Platform}
use beeper_tui.Api.{Chat, Participant, Contact}
use beeper_tui.Identity.Handle.{digits_only, is_handle_like}
use beeper_tui.Identity.Person.{
  Person, ChatRef, AccountRef, nobody, networks, normalize, absorb, absorb_fields, add_chat, latest,
}
use beeper_tui.Identity.Policy.{MergePolicy, allow_name_merge}

pub record Entry : Type 0 where
  pub person : Person
  pub parent : Option ℕ

pub record Builder : Type 0 where
  pub entries : List Entry
  pub by_account : List (String × ℕ)
  pub by_acct_name : List (String × ℕ)
  pub by_name : List (String × ℕ)
  pub by_phone : List (String × ℕ)
  pub by_email : List (String × ℕ)
  pub policy : Option MergePolicy

abbrev pub parent_of : List Entry → ℕ → Option ℕ
parent_of entries i = elim (get_elem? entries i) [ none ↦ none | some e ↦ e.parent ]

-- The loop of `find`, with the links left to follow.
unfoldable pub follow : List Entry → ℕ → ℕ → ℕ
follow entries zero i = i
follow entries (suc fuel) i = elim (parent_of entries i) [
  | none ↦ i
  | some j ↦ follow entries fuel j
]

-- `find`: there are fewer links than people.
unfoldable pub find : List Entry → ℕ → ℕ
find entries i = follow entries (length entries) i

-- What the calls of `consider` have gathered: the destination, and the others in order.
pub record Matches : Type 0 where
  pub dst : Option ℕ
  pub extra : List ℕ

abbrev pub is_dst : Option ℕ → ℕ → Bool
is_dst none p = false
is_dst (some d) p = eqb p d

abbrev pub contains_person : List ℕ → ℕ → Bool
contains_person ps p = any (λ have. eqb have p) ps

-- `consider`, of a person that is found already.
abbrev pub consider_found : ℕ → Matches → Matches
consider_found p ms = elim ms.dst [
  | none ↦ record ms { dst = some p }
  | some d ↦
      if eqb p d || contains_person ms.extra p then ms else record ms { extra = ms.extra ++ p ∷ [] }
]

unfoldable pub consider : List Entry → Option ℕ → Matches → Matches
consider entries none ms = ms
consider entries (some i) ms = consider_found (find entries i) ms

-- The keys of one observation, empty where it has none.
pub record KeySet : Type 0 where
  pub account : String
  pub acct_name : String
  pub name : String
  pub phone : String
  pub email : String

-- One observation: the arguments of `add`.
pub record Sighting : Type 0 where
  pub acct : AccountRef
  pub name : String
  pub username : String
  pub phone : String
  pub email : String
  pub ref : ChatRef
  pub active : ℕ

abbrev pub person_at : List Entry → ℕ → Person
person_at entries i = elim (get_elem? entries i) [ none ↦ nobody | some e ↦ e.person ]

abbrev pub on_person : (Person → Person) → Entry → Entry
on_person f e = record e { person = f e.person }

-- A map of the loop over the map of maps: a key that is empty, or that a later entry of the literal
-- has too, is not written.
abbrev pub put : String → List String → ℕ → List (String × ℕ) → List (String × ℕ)
put key later dst m = if key == "" || any (λ k. k == key) later then m else insert key dst m

-- The writes of the maps at the end of `add`. The literal `map[string]map[string]*Person{…}` keeps the
-- last of the entries that have one key.
unfoldable pub record_keys : KeySet → ℕ → Builder → Builder
record_keys k dst b = record b {
  by_account = put k.account (k.acct_name ∷ k.phone ∷ k.email ∷ []) dst b.by_account;
  by_acct_name = put k.acct_name (k.phone ∷ k.email ∷ []) dst b.by_acct_name;
  by_phone = put k.phone (k.email ∷ []) dst b.by_phone;
  by_email = put k.email [] dst b.by_email;
  by_name = elim (lookup k.name b.by_name) [
    | some _ ↦ b.by_name
    | none ↦ put k.name [] dst b.by_name
  ];
}

module _ ⦃platform : Platform⦄ where
  unfoldable pub keys_of : Sighting → KeySet
  keys_of s =
      let n = normalize s.name in
      record {
        account =
            if s.acct.user_id == ""
            then ""
            else concat s.acct.account_id (concat "\0" s.acct.user_id);
        acct_name = if n == "" then "" else concat s.acct.account_id (concat "\0" n);
        name = n;
        phone = digits_only s.phone;
        email = platform.lower (trim_space s.email);
      }

  -- The strong keys: the first person found is the destination.
  unfoldable pub strong_matches : KeySet → Builder → Matches
  strong_matches k b = consider b.entries (lookup k.email b.by_email) (
      consider b.entries (lookup k.phone b.by_phone) (
        consider b.entries (lookup k.acct_name b.by_acct_name)
          (consider b.entries (lookup k.account b.by_account) (record { dst = none; extra = [] }))))

  -- The name across accounts, which the policy gates.
  abbrev pub gate_name : Sighting → ℕ → Matches → Builder → Matches × Builder
  gate_name s p ms b =
      let seen = networks (person_at b.entries p) ++ s.acct.network ∷ [] in
      let (allowed, policy) = allow_name_merge b.policy s.name seen in
      if is_dst ms.dst p || contains_person ms.extra p
      then (ms, b)
      else (if allowed then consider_found p ms else ms, record b { policy = policy })

  unfoldable pub all_matches : KeySet → Sighting → Builder → Matches × Builder
  unfolding strong_matches
  all_matches k s b = elim (lookup k.name b.by_name) [
    | none ↦ (strong_matches k b, b)
    | some i ↦ gate_name s (find b.entries i) (strong_matches k b) b
  ]

  -- `dst`, made where nothing matched.
  unfoldable pub destination : Sighting → Option ℕ → List Entry → ℕ × List Entry
  destination s none entries = (
    length entries,
    entries ++ record { person = record nobody { name = s.name }; parent = none } ∷ [],
  )
  destination s (some d) entries = (d, entries)

  -- The loop over `extra`: absorbed, then linked.
  unfoldable pub link : ℕ → ℕ → List Entry → List Entry
  link dst p entries =
      modify (modify entries dst (on_person (λ q. absorb q (person_at entries p)))) p
        (λ e. record e { parent = some dst })

  unfoldable pub link_all : ℕ → List ℕ → List Entry → List Entry
  link_all dst [] entries = entries
  link_all dst (p ∷ ps) entries = link_all dst ps (link dst p entries)

  -- What the observation itself adds to its person.
  unfoldable pub observe : Sighting → Person → Person
  observe s q =
      let q' = absorb_fields s.name s.username s.phone s.email s.acct q in
      record q' { chats = add_chat s.ref q'.chats; last_active = latest s.active q'.last_active }

  -- `add`.
  unfoldable pub add : Sighting → Builder → Builder
  unfolding all_matches destination link_all observe
  add s b =
      let k = keys_of s in
      let (ms, b') = all_matches k s b in
      let (dst, entries) = destination s ms.dst b'.entries in
      record_keys k dst
        (record b' { entries = modify (link_all dst ms.extra entries) dst (on_person (observe s)) })
