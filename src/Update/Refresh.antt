-- ===== src/Update/Refresh.antt =====
-- internal/ui/update.go: a fresh chat list keeps the selection, and an error loses nothing.
use beeper_tui.Base.{
  ◌≡◌, ◌≢◌, refl, ap, ◌∙◌, ℕ, ◌+◌, true, false, Bool-cases, inl, inr, ◌||◌, String, ◌==◌, List, [],
  ◌∷◌, Option, Option-cases, some, if◌then◌else◌, arith, get_elem?, map, ltb,
}
use beeper_tui.Platform.{Platform}
use beeper_tui.Api.{Chat, Contact}
use beeper_tui.Model.{Model}
use beeper_tui.Sorting.{sort_chats, reselect_by_id}
use beeper_tui.Sorting.Order.{IsSorted, sort-IsSorted}
use beeper_tui.Sorting.Select.{has_id, reselect-sort}
use beeper_tui.Cache.{selected_id, maybe_save_cache, cache_save_debounce}
use beeper_tui.Contacts.{resolve_chat_titles, retitle}
use beeper_tui.Nav.Window.{clamp_window}
use beeper_tui.Nav.Frame.{chats-clamp_window, selected-clamp_window}
use beeper_tui.Events.Selection.{selected_id_of, ne_empty}
use beeper_tui.Update.{on_chats_loaded, on_load_error}

has_id-map :
    (id : String) (title : Chat → Option String) (cs : List Chat)
    → has_id id (map (λ c. retitle (title c) c) cs) ≡ has_id id cs
has_id-map id title [] = refl
has_id-map id title (c ∷ cs) = elim (Option-cases (title c)) [
  | inl missing ↦ rw missing (ap (λ b. c.id == id || b) (has_id-map id title cs))
  | inr (name, found) ↦ rw found (ap (λ b. c.id == id || b) (has_id-map id title cs))
]

-- Saving the cache leaves the list and the selection.
Saved : ℕ → Model → Type 0
Saved now m =
    ((maybe_save_cache now m).0.chats ≡ m.chats)
    × ((maybe_save_cache now m).0.selected ≡ m.selected)

Saved-with : (now : ℕ) (m : Model) (cs : List Chat) → m.chats ≡ cs → Saved now m
unfolding maybe_save_cache Saved
Saved-with now m [] e = rw (maybe_save_cache, e) (e, refl)
Saved-with now m (c ∷ cs) e =
    elim (Bool-cases (m.cache_path == "" || ltb now (m.cache_saved_at + cache_save_debounce))) [
      | inl early ↦ rw (maybe_save_cache, e, early) (e, refl)
      | inr due ↦ rw (maybe_save_cache, e, due) (e, refl)
    ]

module _ ⦃platform : Platform⦄ where
  has_id-resolve :
      (id : String) (contacts : List Contact) (cs : List Chat)
      → has_id id (resolve_chat_titles contacts cs) ≡ has_id id cs
  unfolding resolve_chat_titles
  has_id-resolve id [] cs = refl
  has_id-resolve id (ct ∷ cts) cs = has_id-map id _ cs

  -- The list that a load puts in place.
  abbrev fresh_list : Model → List Chat → List Chat
  fresh_list m fresh = sort_chats (resolve_chat_titles m.contacts fresh)

  loaded_list :
      (now : ℕ) (fresh : List Chat) (m : Model) (c : Chat)
      → get_elem? m.chats m.selected ≡ some c
      → c.id ≢ ""
      → ((on_chats_loaded now fresh m).0.chats ≡ fresh_list m fresh)
        × ((on_chats_loaded now fresh m).0.selected ≡ reselect_by_id (fresh_list m fresh) c.id)
  unfolding on_chats_loaded Saved
  loaded_list now fresh m c at ne =
      let chats = fresh_list m fresh in
      let sel = if selected_id m == "" then m.selected else reselect_by_id chats (selected_id m) in
      let m' = record m { chats = chats; selected = sel; loading_chats = false } in
      let (keeps, keeps') = Saved-with now (clamp_window m') (clamp_window m').chats refl in
      let place : sel ≡ reselect_by_id chats c.id =
        rw (selected_id_of m c at, ne_empty c.id ne) refl in
      (keeps ∙ chats-clamp_window m', keeps' ∙ selected-clamp_window m' ∙ place)

  -- A fresh chat list is shown sorted, and where it has the selected chat, that chat stays selected.
  pub on_chats_loaded-selected :
      (now : ℕ) (fresh : List Chat) (m : Model) (c : Chat)
      → get_elem? m.chats m.selected ≡ some c
      → c.id ≢ ""
      → has_id c.id fresh ≡ true
      → (selected_id (on_chats_loaded now fresh m).0 ≡ c.id)
        × IsSorted (on_chats_loaded now fresh m).0.chats
  on_chats_loaded-selected now fresh m c at ne h =
      let named = resolve_chat_titles m.contacts fresh in
      let (chats, selected) = loaded_list now fresh m c at ne in
      let (d, there, same) = reselect-sort named c.id (has_id-resolve c.id m.contacts fresh ∙ h) in
      let k = (on_chats_loaded now fresh m).0 in
      let here : get_elem? k.chats k.selected ≡ some d = rw (chats, selected) there in
      (selected_id_of k d here ∙ same, rw chats (sort-IsSorted named))

  -- No error of a load loses what is shown: the chats, the messages, the selection, the cursor and the
  -- text being written are those of before.
  pub on_load_error-keeps :
      (chat_id query err : String) (m : Model)
      → ((on_load_error chat_id query err m).chats ≡ m.chats)
        × ((on_load_error chat_id query err m).messages ≡ m.messages)
        × ((on_load_error chat_id query err m).selected ≡ m.selected)
        × ((on_load_error chat_id query err m).msg_selected ≡ m.msg_selected)
        × ((on_load_error chat_id query err m).input ≡ m.input)
  unfolding on_load_error
  on_load_error-keeps chat_id query err m = ground arith
