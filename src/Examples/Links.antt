-- ===== src/Examples/Links.antt =====
-- The links of an answer that mentions people and chats.
use beeper_tui.Base.{
  ◌≡◌, refl, ◌≤◌, String, List, [], ◌∷◌, some, none, false, map, All, trim_space, sort_by, byte_len,
  lookup, insert, contains,
}
use beeper_tui.Api.{Chat, Participant}
use beeper_tui.Identity.Handle.{is_handle_like, digits_only}
use beeper_tui.Identity.Person.{normalize, absorb_fields, absorb_name}
use beeper_tui.Identity.Builder.{add, record_keys, keys_of, consider, find, follow}
use beeper_tui.Identity.Build.{build, survivors, add_all, sightings, of_chats, empty_builder}
use beeper_tui.Contacts.{same_number}
use beeper_tui.ChatLinks.{find_chat_links, word_index, mention, newest_chat, active_times, Hit}
use beeper_tui.ChatLinks.Distinct.{links_to, find_chat_links-distinct}
use beeper_tui.ChatLinks.Appearance.{IsAscending, IsMentioned, find_chat_links-IsAscending}
use beeper_tui.Examples.{plain_platform, chat_of}

-- A person of two chats, the newer one a group.
abbrev member : Participant
member = record {
  user_id = "u-bob";
  full_name = "Bob Ray";
  username = "";
  is_self = false;
  is_bot = false;
}

abbrev trip : List Chat
trip =
    record (chat_of "Dana Lee" false 0 3) { id = "c-dana" }
    ∷ record (chat_of "Ski Trip" false 0 2) {
      id = "c-group";
      type = "group";
      participants = member ∷ [];
    }
    ∷ record (chat_of "Bob Ray" false 0 1) { id = "c-bob"; participants = member ∷ [] }
    ∷ []

abbrev said : String
said = "Dana Lee said the Ski Trip is on; Bob Ray confirmed."

-- Both of the person's chats have a link, and the title of the group has none.
trip_links :
    find_chat_links said trip
    ≡ record { name = "Dana Lee"; chat_id = "c-dana" }
      ∷ record { name = "Bob Ray"; chat_id = "c-group" }
      ∷ record { name = "Bob Ray"; chat_id = "c-bob" }
      ∷ []
unfolding find_chat_links trim_space sort_by byte_len build survivors add_all sightings of_chats add
    record_keys lookup empty_builder keys_of normalize insert consider digits_only is_handle_like
    contains find follow absorb_fields absorb_name newest_chat active_times
trip_links = refl

find_chat_links-distinct_example :
    (links_to "c-group" (find_chat_links said trip) ≤ 1)
    × (links_to "" (find_chat_links said trip) ≡ 0)
find_chat_links-distinct_example = find_chat_links-distinct said trip "c-group"

-- A name inside a word is no mention.
inside_word : word_index "the danaher meeting" "dana" ≡ none
unfolding word_index
inside_word = refl

-- A number is found in the format of the text.
number_mention : mention "call 555-123 4567 now" "+5551234567" ≡ some (5, "555-123 4567")
unfolding mention is_handle_like trim_space contains byte_len digits_only same_number
number_mention = refl

find_chat_links-IsAscending_example :
    (hs : List Hit) × (find_chat_links said trip ≡ map (λ (h : Hit). h.link) hs)
    × IsAscending hs
    × All (IsMentioned said) hs
find_chat_links-IsAscending_example = find_chat_links-IsAscending said trip
