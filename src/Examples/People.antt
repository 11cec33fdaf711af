-- ===== src/Examples/People.antt =====
-- People, cards and a store of cards on concrete values.
use beeper_tui.Base.{
  contains, has_prefix, ◌≡◌, refl, ◌≤◌, String, List, [], ◌∷◌, ◌++◌, true, false, none, ok, All,
  length, if◌then◌else◌, ◌==◌, ◌>>=◌, trim_space,
}
use beeper_tui.Api.{Chat}
use beeper_tui.Identity.Person.{Person, nobody, normalize}
use beeper_tui.Identity.Builder.{Sighting, find, add}
use beeper_tui.Identity.Builder.Links.{IsRoot}
use beeper_tui.Identity.Builder.Keys.{add_keeps_accounts}
use beeper_tui.Identity.Build.{add_all, sightings, empty_builder}
use beeper_tui.Identity.Build.Links.{find_after_build}
use beeper_tui.Identity.Search.{search}
use beeper_tui.Identity.Search.Tiers.{matches, search-matches}
use beeper_tui.Cards.{Card, Fact, Found, Yaml, blank_card, merge_card, slug}
use beeper_tui.Cards.Filling.{merge_card-keeps}
use beeper_tui.Cards.Filling.Again.{merge_card_again}
use beeper_tui.Cards.Store.{Store, load, save}
use beeper_tui.Cards.File.{load-saved}
use beeper_tui.Cards.Store.Slugs.{is_foreign, slug_foreign}
use beeper_tui.Examples.{plain_platform, chat_of}

-- Two chats with one person.
abbrev lees : List Chat
lees = chat_of "lee" false 0 1 ∷ chat_of "lee" true 0 2 ∷ []

find_after_build_example :
    let entries = (add_all (sightings lees []) (empty_builder none)).entries in
    IsRoot entries (find entries 0)
find_after_build_example = find_after_build lees [] none 0

-- A person whose user ID is also the name.
abbrev lee_by_name : Sighting
lee_by_name = record {
  acct = record { account_id = "slack"; user_id = "lee"; network = "Slack" };
  name = "lee";
  username = "";
  phone = "";
  email = "";
  ref = record { id = ""; title = "" };
  active = 0;
}

add_keeps_accounts_example :
    (add lee_by_name (empty_builder none)).by_account ≡ (empty_builder none).by_account
unfolding normalize trim_space
add_keeps_accounts_example = add_keeps_accounts lee_by_name (empty_builder none) refl

abbrev lee : Person
lee = record nobody { name = "lee" }

search-matches_example :
    (length (search "lee" 1 (lee ∷ lee ∷ [])) ≤ 1)
    × All (λ p. matches (normalize "lee") p ≡ true) (search "lee" 1 (lee ∷ lee ∷ []))
search-matches_example = search-matches "lee" 1 (lee ∷ lee ∷ [])

abbrev half_card : Card
half_card = record (blank_card "lee") { city = "Oslo"; likes = "tea" ∷ [] }

abbrev said : String → Fact
said v = record { value = v; quote = "I said so" }

abbrev facts : Found
facts = record {
  birthday = said "05-17";
  city = said "Bergen";
  country = said "";
  likes = said "tea" ∷ said "rain" ∷ [];
}

merge_card-keeps_example :
    let c' = (merge_card half_card facts).0 in
    (c'.name ≡ "lee")
    × (c'.body ≡ "")
    × (c'.birthday ≡ (if "" == "" then trim_space "05-17" else ""))
    × (c'.city ≡ (if "Oslo" == "" then trim_space "Bergen" else "Oslo"))
    × (c'.country ≡ (if "" == "" then trim_space "" else ""))
    × (more : List String) × (c'.likes ≡ ("tea" ∷ []) ++ more)
merge_card-keeps_example = merge_card-keeps half_card facts

merge_card_again_example :
    merge_card (merge_card half_card facts).0 facts ≡ ((merge_card half_card facts).0, [], [])
merge_card_again_example = merge_card_again half_card facts

-- An encoding that writes the name alone.
instance abbrev name_only : Yaml
name_only = record { marshal = λ c. ok "name: lee\n"; unmarshal = λ text c. ok c }

abbrev empty_store : Store
empty_store = record { files = []; marks = []; provenance = []; failure = none }

abbrev lee_card : Card
lee_card = record (blank_card "lee") { body = "Met in Rome." }

load-saved_example : (save lee_card empty_store >>= (λ saved. load "lee" saved)) ≡ ok lee_card
unfolding contains trim_space has_prefix slug
load-saved_example =
    load-saved lee_card empty_store "name: lee" "lee" (refl, refl, refl) refl refl refl refl

slug_foreign_example : (slug "Дана" ≡ "") × (slug "Дана" ≡ slug "Ли")
unfolding is_foreign trim_space
slug_foreign_example = slug_foreign "Дана" "Ли" refl refl
