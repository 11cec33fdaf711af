-- ===== src/Cache/WarmStart.antt =====
-- internal/ui/cache.go and cmd/beeper-tui/main.go: what a start from the saved snapshot shows.
use beeper_tui.Base.{◌≡◌, refl, ◌∙◌, List, [], ◌∷◌, some, false, String, get_elem?, arith, ℕ}
use beeper_tui.Api.{Chat}
use beeper_tui.Model.{Model}
use beeper_tui.Sorting.{sort_chats, reselect_by_id}
use beeper_tui.Sorting.Order.{IsSorted, sort_of_IsSorted}
use beeper_tui.Sorting.Select.{has_id_of_get_elem?, reselect-sort}
use beeper_tui.Cache.{
  LoadResult, decoded, loaded, read_error, err_corrupt_cache, err_schema_mismatch, load, stamp,
  snapshot, with_cache, selected_id, empty_cache,
}

-- The start of `main`: an error of `state.Load` is ignored, and leaves an empty cache.
unfoldable pub warm_start : LoadResult → String → Model → Model
warm_start (loaded c) path fresh = with_cache c path fresh
warm_start read_error path fresh = with_cache empty_cache path fresh
warm_start err_corrupt_cache path fresh = with_cache empty_cache path fresh
warm_start err_schema_mismatch path fresh = with_cache empty_cache path fresh

-- What a start from chats shows.
abbrev restored : List Chat → String → String → Model → Model
restored cs id path m = record m {
  cache_path = path;
  chats = sort_chats cs;
  selected = reselect_by_id (sort_chats cs) id;
  loading_chats = false;
}

with_chats :
    (c : Chat) (cs : List Chat) (v i : ℕ) (id path : String) (m : Model)
    → get_elem? cs i ≡ some c
    → with_cache (record { schema_version = v; last_selected_chat_id = id; chats = cs }) path m
      ≡ restored cs id path m
unfolding with_cache
with_chats c [] v i id path m e = absurd (ground arith)
with_chats c (d ∷ ds) v i id path m e = refl

starts :
    (m fresh : Model) (c : Chat) (path : String)
    → get_elem? m.chats m.selected ≡ some c
    → warm_start (load (decoded (stamp (snapshot m)))) path fresh
      ≡ restored m.chats (selected_id m) path fresh
unfolding warm_start load stamp snapshot
starts m fresh c path e = with_chats c m.chats 2 m.selected (selected_id m) path fresh e

selected_of : (m : Model) (c : Chat) → get_elem? m.chats m.selected ≡ some c → selected_id m ≡ c.id
unfolding selected_id
selected_of m c e = rw e

-- Saving a sorted chat list with a selection and starting from the file shows the same chats in the
-- same order, with a chat of the same ID selected.
pub warm_start-snapshot :
    (m fresh : Model) (c : Chat) (path : String)
    → IsSorted m.chats
    → get_elem? m.chats m.selected ≡ some c
    → ((warm_start (load (decoded (stamp (snapshot m)))) path fresh).chats ≡ m.chats)
      × (selected_id (warm_start (load (decoded (stamp (snapshot m)))) path fresh) ≡ selected_id m)
warm_start-snapshot m fresh c path s e =
    let (d, at, same) = reselect-sort m.chats c.id (has_id_of_get_elem? m.chats m.selected c e) in
    rw (starts m fresh c path e, selected_of m c e)
      (sort_of_IsSorted m.chats s, selected_of (restored m.chats c.id path fresh) d at ∙ same)
