-- ===== src/Identity/Build.antt =====
-- internal/identity/identity.go: the index that is built from chats and contacts. The sightings are
-- listed first and then added in their order, which is the order of the calls of `add`.
pub mod Links
use beeper_tui.Base.{
  Bool, not, ◌&&◌, ◌||◌, String, ◌==◌, List, [], ◌∷◌, ◌++◌, Option, none, some, map, keep, lookup,
  insert, is_some, if◌then◌else◌, leb, byte_len,
}
use beeper_tui.Platform.{Platform}
use beeper_tui.Api.{Chat, Participant, Contact}
use beeper_tui.Identity.Handle.{digits_only, is_handle_like}
use beeper_tui.Identity.Person.{Person, ChatRef}
use beeper_tui.Identity.Policy.{MergePolicy}
use beeper_tui.Identity.Builder.{Entry, Builder, Sighting, add}

abbrev chat_ref : Chat → ChatRef
chat_ref c = record { id = c.id; title = c.title }

abbrev is_skipped : Participant → Bool
is_skipped p = p.is_self || p.is_bot || (p.full_name == "" && p.username == "")

abbrev of_participant : Chat → Participant → Sighting
of_participant c p = record {
  acct = record { account_id = c.account_id; user_id = p.user_id; network = c.network };
  name = p.full_name;
  username = p.username;
  phone = "";
  email = "";
  ref = chat_ref c;
  active = c.last_active;
}

-- A number-like title is also the person's phone.
abbrev title_phone : String → String
title_phone title =
    if is_handle_like title && leb 7 (byte_len (digits_only title)) then title else ""

abbrev of_title : Chat → List Sighting
of_title c =
    if c.type == "single" && not (c.title == "")
    then record {
      acct = record { account_id = c.account_id; user_id = ""; network = c.network };
      name = c.title;
      username = "";
      phone = title_phone c.title;
      email = "";
      ref = chat_ref c;
      active = c.last_active;
    }
      ∷ []
    else []

-- The loop over the chats.
unfoldable pub of_chats : List Chat → List Sighting
of_chats [] = []
of_chats (c ∷ cs) =
    map (of_participant c) (keep (λ p. not (is_skipped p)) c.participants)
    ++ of_title c
    ++ of_chats cs

-- `networks`, of the accounts.
unfoldable pub account_networks : List Chat → List (String × String) → List (String × String)
account_networks [] m = m
account_networks (c ∷ cs) m = account_networks cs (insert c.account_id c.network m)

abbrev network_of : String → List (String × String) → String
network_of id m = elim (lookup id m) [ none ↦ "" | some n ↦ n ]

-- The loop over the contacts.
abbrev of_contact : List (String × String) → Contact → Sighting
of_contact networks ct = record {
  acct = record {
    account_id = ct.account_id;
    user_id = ct.user_id;
    network = network_of ct.account_id networks;
  };
  name = ct.full_name;
  username = ct.username;
  phone = ct.phone_number;
  email = ct.email;
  ref = record { id = ""; title = "" };
  active = 0;
}

unfoldable pub sightings : List Chat → List Contact → List Sighting
sightings chats contacts = of_chats chats ++ map (of_contact (account_networks chats [])) contacts

unfoldable pub empty_builder : Option MergePolicy → Builder
empty_builder policy = record {
  entries = [];
  by_account = [];
  by_acct_name = [];
  by_name = [];
  by_phone = [];
  by_email = [];
  policy = policy;
}

-- The people that were not merged into another.
unfoldable pub survivors : List Entry → List Person
survivors [] = []
survivors (e ∷ es) = let rest = survivors es in if is_some e.parent then rest else e.person ∷ rest

module _ ⦃platform : Platform⦄ where
  unfoldable pub add_all : List Sighting → Builder → Builder
  add_all [] b = b
  add_all (s ∷ ss) b = add_all ss (add s b)

  -- `BuildWithPolicy`: the people of the index, and the policy that is left.
  unfoldable pub build_with_policy :
      List Chat → List Contact → Option MergePolicy → List Person × Option MergePolicy
  build_with_policy chats contacts policy =
      let b = add_all (sightings chats contacts) (empty_builder policy) in
      (survivors b.entries, b.policy)

  -- `Build`.
  unfoldable pub build : List Chat → List Contact → List Person
  unfolding build_with_policy
  build chats contacts = (build_with_policy chats contacts none).0
