-- ===== src/Examples/Live.antt =====
-- Live events, refreshes and the chat list on concrete states.
use mathlib.Core.List.{Perm}
use beeper_tui.Base.{
  ◌≡◌, ◌≢◌, refl, ◌+◌, true, false, ◌==◌, String, List, [], ◌∷◌, ◌++◌, none, some, delete,
  has_prefix, keep, if◌then◌else◌,
}
use beeper_tui.Api.{Message}
use beeper_tui.Model.{new}
use beeper_tui.Cache.{selected_id, snapshot, stamp, load, decoded}
use beeper_tui.Cache.WarmStart.{warm_start, warm_start-snapshot}
use beeper_tui.Events.{
  Event, EventType, message_deleted, apply_incoming_message, upsert_message, apply_message_deleted,
  event_chat_id,
}
use beeper_tui.Events.Deleted.{find-apply_message_deleted}
use beeper_tui.React.{member}
use beeper_tui.Events.Incoming.{
  total_unread, news, is_read_live, apply_incoming_message-unread, apply_incoming_message-selected,
}
use beeper_tui.Events.Upsert.{find_message, find-upsert_message}
use beeper_tui.Poll.{merge_locals, has_echo, is_echo}
use beeper_tui.Poll.Merge.{
  Extends, merge_locals-Extends, merge_locals-echo, merge_locals_drops_twin,
}
use beeper_tui.Sorting.{sort_chats, insert_chat, before}
use beeper_tui.Sorting.Order.{
  IsSorted, sort-IsSorted, IsRanked, sort_chats-IsRanked, same_rank, sort_stable,
}
use beeper_tui.Update.{on_chats_loaded}
use beeper_tui.Update.Refresh.{on_chats_loaded-selected}
use beeper_tui.Nav.Chats.{chat_index_by_id}
use beeper_tui.Examples.{
  plain_platform, message_of, ann, bob, two_chats, three_messages, hello, again, lunch,
}

-- An optimistic message of the user, and one with the same text a little later.
abbrev ok_1 : Message
ok_1 = message_of "local:1" "bob" "ok" 5 true

abbrev ok_2 : Message
ok_2 = message_of "local:2" "bob" "ok" 6 true

merge_locals-Extends_example :
    Extends (hello ∷ []) (merge_locals (hello ∷ []) (hello ∷ ok_1 ∷ []) []).0
merge_locals-Extends_example = merge_locals-Extends (hello ∷ []) (hello ∷ ok_1 ∷ []) []

merge_locals-echo_example :
    has_echo (merge_locals (hello ∷ []) ((hello ∷ []) ++ ok_1 ∷ []) []).0 ok_1 ≡ true
unfolding has_prefix
merge_locals-echo_example = merge_locals-echo (hello ∷ []) (hello ∷ []) [] [] ok_1 (refl, refl)

merge_locals_drops_twin_example :
    merge_locals (hello ∷ []) (ok_1 ∷ ok_2 ∷ []) []
    ≡ ((hello ∷ []) ++ ok_1 ∷ [], delete "local:2" [])
unfolding is_echo has_prefix
merge_locals_drops_twin_example =
    merge_locals_drops_twin (hello ∷ []) ok_1 ok_2 [] (refl, refl) (refl, refl) refl refl

apply_incoming_message-unread_example :
    (total_unread (apply_incoming_message lunch two_chats).0.chats
      ≡ total_unread two_chats.chats + news (is_read_live lunch two_chats) lunch)
    × IsSorted (apply_incoming_message lunch two_chats).0.chats
unfolding chat_index_by_id
apply_incoming_message-unread_example = apply_incoming_message-unread lunch two_chats 1 refl

bob_named : bob.id ≢ ""
bob_named h = cc

apply_incoming_message-selected_example :
    selected_id (apply_incoming_message lunch two_chats).0 ≡ "bob"
unfolding chat_index_by_id
apply_incoming_message-selected_example =
    apply_incoming_message-selected lunch two_chats 1 bob refl refl bob_named

on_chats_loaded-selected_example :
    (selected_id (on_chats_loaded 0 (bob ∷ ann ∷ []) two_chats).0 ≡ "bob")
    × IsSorted (on_chats_loaded 0 (bob ∷ ann ∷ []) two_chats).0.chats
on_chats_loaded-selected_example =
    on_chats_loaded-selected 0 (bob ∷ ann ∷ []) two_chats bob refl bob_named refl

two_chats-IsSorted : IsSorted two_chats.chats
unfolding sort_chats insert_chat before
two_chats-IsSorted = sort-IsSorted (bob ∷ ann ∷ [])

warm_start-snapshot_example :
    ((warm_start (load (decoded (stamp (snapshot two_chats)))) "cache.json" (new true)).chats
      ≡ two_chats.chats)
    × (selected_id
          (warm_start (load (decoded (stamp (snapshot two_chats)))) "cache.json" (new true))
        ≡ selected_id two_chats)
warm_start-snapshot_example =
    warm_start-snapshot two_chats (new true) bob "cache.json" two_chats-IsSorted refl

find-upsert_message_example :
    find_message "m1" (upsert_message (hello ∷ []) again)
    ≡ (if again.id == "m1" then some again else find_message "m1" (hello ∷ []))
find-upsert_message_example = find-upsert_message (hello ∷ []) again "m1"

abbrev event : EventType → List String → Event
event type ids = record { type = type; chat_id = "bob"; ids = ids; entries = []; err = none }

sort_chats-IsRanked_example :
    IsRanked (sort_chats (bob ∷ ann ∷ [])) × Perm (sort_chats (bob ∷ ann ∷ [])) (bob ∷ ann ∷ [])
sort_chats-IsRanked_example = sort_chats-IsRanked (bob ∷ ann ∷ [])

sort_stable_example :
    keep (same_rank false 20) (sort_chats (bob ∷ ann ∷ []))
    ≡ keep (same_rank false 20) (bob ∷ ann ∷ [])
sort_stable_example = sort_stable false 20 (bob ∷ ann ∷ [])

find-apply_message_deleted_example :
    find_message "m1"
      (apply_message_deleted (event message_deleted ("m2" ∷ [])) three_messages).messages
    ≡ (if member "m1" ("m2" ∷ []) then none else find_message "m1" three_messages.messages)
unfolding event_chat_id
find-apply_message_deleted_example =
    find-apply_message_deleted (event message_deleted ("m2" ∷ [])) three_messages "m1" refl
