-- ===== src/Nav/Chats/Archive.antt =====
-- internal/ui/nav.go: archiving is one request at a time, and its answer moves one chat.
use beeper_tui.Base.{
  ◌≡◌, refl, ℕ, true, false, Bool, Bool-cases, inl, inr, String, ◌==◌, List, [], Option, none, some,
  arith, not, ◌||◌, get_elem?, get_elem?-modify_self, length, modify, length-modify,
}
use beeper_tui.Platform.{Platform}
use beeper_tui.Api.{Chat}
use beeper_tui.Model.{Model}
use beeper_tui.Sorting.Select.{chat_index_by_id_found, chat_index_by_id_complete, has_id}
use beeper_tui.Nav.Chats.{
  archive_selected, archive_target, archive_at, chat_index_by_id, set_archived,
}

module _ ⦃platform : Platform⦄ where
  target_kept :
      (id : String) (m : Model)
      → archive_target (record m { archiving_chat_id = id; archive_err = none }) ≡ archive_target m
  unfolding archive_target
  target_kept id m = refl

  busy_after :
      (id : String) (archived : Bool) (m : Model)
      → (id == "") ≡ false
      → (archive_at
          (some (id, archived))
          (record m { archiving_chat_id = id; archive_err = none })).1
        ≡ []
  busy_after id archived m h = rw h refl

  second_silent :
      (t : Option (String × Bool)) (m : Model)
      → archive_target m ≡ t
      → (archive_selected (archive_at t m).0).1 ≡ []
  unfolding archive_selected
  second_silent none m e = rw e refl
  second_silent (some (id, archived)) m e =
      elim (Bool-cases (id == "" || not (m.archiving_chat_id == ""))) [
        | inl busy ↦ rw (busy, e, busy) refl
        | inr free ↦
            let named : (id == "") ≡ false = ground arith in
            rw (free, target_kept id m, e) (busy_after id archived m named)
      ]

  -- Asking twice to archive sends at most one request: the second call, made before the first is
  -- answered, sends none.
  pub archive_selected_once : (m : Model) → (archive_selected (archive_selected m).0).1 ≡ []
  unfolding archive_selected
  archive_selected_once m = second_silent (archive_target m) m refl

set_archived-modify :
    (id : String) (archived : Bool) (cs : List Chat) (i : ℕ)
    → chat_index_by_id cs id ≡ some i
    → set_archived id archived cs ≡ modify cs i (λ c. record c { archived = archived })
set_archived-modify id archived cs i e = rw (set_archived, e) refl

-- The answer that a chat is archived reaches it: the chat with the ID has the flag, and the number of
-- chats stays.
pub set_archived-found :
    (id : String) (archived : Bool) (cs : List Chat)
    → has_id id cs ≡ true
    → (c : Chat) × (i : ℕ) × (get_elem? (set_archived id archived cs) i ≡ some c)
      × (c.id ≡ id)
      × (c.archived ≡ archived)
      × (length (set_archived id archived cs) ≡ length cs)
set_archived-found id archived cs h =
    let (i, found) = chat_index_by_id_complete cs id h in
    let (c, at, same) = chat_index_by_id_found cs id i found in
    rw (set_archived-modify id archived cs i found) (
      record c { archived = archived },
      i,
      get_elem?-modify_self cs i (λ c. record c { archived = archived }) c at,
      same,
      refl,
      length-modify cs i (λ c. record c { archived = archived }),
    )
