-- ===== src/Identity/Build/Links.antt =====
-- internal/identity/identity.go: the links of the index that `BuildWithPolicy` builds.
use beeper_tui.Base.{refl, ℕ, List, [], ◌∷◌, Option}
use beeper_tui.Platform.{Platform}
use beeper_tui.Api.{Chat, Contact}
use beeper_tui.Identity.Policy.{MergePolicy}
use beeper_tui.Identity.Builder.{Builder, Sighting, find, add}
use beeper_tui.Identity.Build.{add_all, sightings, empty_builder}
use beeper_tui.Identity.Builder.Links.{IsRoot, IsForest, find-IsRoot}
use beeper_tui.Identity.Builder.Merging.{add-IsForest}

module _ ⦃platform : Platform⦄ where
  add_all-IsForest :
      (ss : List Sighting) (b : Builder) → IsForest b.entries → IsForest (add_all ss b).entries
  unfolding add_all
  add_all-IsForest [] b f = f
  add_all-IsForest (s ∷ ss) b f = add_all-IsForest ss (add s b) (add-IsForest s b f)

  empty-IsForest : (policy : Option MergePolicy) → IsForest (empty_builder policy).entries
  unfolding empty_builder IsForest IsRoot
  empty-IsForest policy i = refl

  -- However the people of chats and contacts were merged, following the links from any person ends,
  -- in no more steps than there are people, at one that was not merged into another.
  pub find_after_build :
      (chats : List Chat) (contacts : List Contact) (policy : Option MergePolicy) (i : ℕ)
      → let entries = (add_all (sightings chats contacts) (empty_builder policy)).entries in
        IsRoot entries (find entries i)
  find_after_build chats contacts policy i =
      let b = add_all (sightings chats contacts) (empty_builder policy) in
      find-IsRoot b.entries i
        (add_all-IsForest (sightings chats contacts) (empty_builder policy) (empty-IsForest policy))
