-- ===== src/Sorting/Select.antt =====
-- Finding a chat by its ID: in a list of chats with distinct IDs a sort cannot lose the selection.
use beeper_tui.Base.{
  Bool, Option-cases, ℕ, zero, suc, ◌≡◌, refl, ap, ◌∙◌, inl, inr, true, String, ◌==◌, eq_iff,
  eq_refl, List, [], ◌∷◌, arith, Bool-cases, some, get_elem?, any, ◌||◌,
}
use beeper_tui.Api.{Chat}
use beeper_tui.Nav.Chats.{chat_index_by_id}
use beeper_tui.Sorting.{insert_chat, sort_chats, reselect_by_id}

-- The index that is found holds a chat with the ID.
pub chat_index_by_id_found :
    (cs : List Chat) (id : String) (i : ℕ)
    → chat_index_by_id cs id ≡ some i
    → (c : Chat) × (get_elem? cs i ≡ some c) × (c.id ≡ id)
unfolding chat_index_by_id
chat_index_by_id_found [] id i e = cc
chat_index_by_id_found (c ∷ cs) id i e = elim (Bool-cases (c.id == id)) [
  | inl same ↦ let here : i ≡ 0 = ground arith in rw here (c, refl, (eq_iff _ _).0 same)
  | inr other ↦ elim (Option-cases (chat_index_by_id cs id)) [
    | inl missing ↦ absurd (ground arith)
    | inr (j, found) ↦
        let next : i ≡ suc j = ground arith in rw next (chat_index_by_id_found cs id j found)
  ]
]

or_true : (b : Bool) → (b || true) ≡ true
or_true b = ground arith

-- Some chat of the list has the ID.
abbrev pub has_id : String → List Chat → Bool
has_id id cs = any (λ c. c.id == id) cs

pub chat_index_by_id_complete :
    (cs : List Chat) (id : String)
    → has_id id cs ≡ true
    → (i : ℕ) × (chat_index_by_id cs id ≡ some i)
unfolding chat_index_by_id
chat_index_by_id_complete [] id h = cc
chat_index_by_id_complete (c ∷ cs) id h = elim (Bool-cases (c.id == id)) [
  | inl same ↦ (0, rw same)
  | inr other ↦
      let (j, found) = chat_index_by_id_complete cs id (ground arith) in (suc j, rw (other, found))
]

has_id-insert :
    (id : String) (c : Chat) (cs : List Chat) → has_id id (insert_chat c cs) ≡ has_id id (c ∷ cs)
unfolding insert_chat
has_id-insert id c [] = refl
has_id-insert id c (d ∷ ds) = ground (arith, has_id-insert id c ds)

pub has_id-sort : (id : String) (cs : List Chat) → has_id id (sort_chats cs) ≡ has_id id cs
unfolding sort_chats
has_id-sort id [] = refl
has_id-sort id (c ∷ cs) =
    has_id-insert id c (sort_chats cs) ∙ ap (λ b. c.id == id || b) (has_id-sort id cs)

pub has_id_of_get_elem? :
    (cs : List Chat) (i : ℕ) (c : Chat) → get_elem? cs i ≡ some c → has_id c.id cs ≡ true
has_id_of_get_elem? [] i c e = cc
has_id_of_get_elem? (d ∷ ds) zero c e = let same : d ≡ c = ground arith in rw (same, eq_refl)
has_id_of_get_elem? (d ∷ ds) (suc i) c e =
    rw (has_id_of_get_elem? ds i c e) (or_true (d.id == c.id))

-- After a sort the ID of a chat leads to a chat with that ID.
pub reselect-sort :
    (cs : List Chat) (id : String)
    → has_id id cs ≡ true
    → (c : Chat) × (get_elem? (sort_chats cs) (reselect_by_id (sort_chats cs) id) ≡ some c)
      × (c.id ≡ id)
unfolding reselect_by_id
reselect-sort cs id h =
    let (i, found) = chat_index_by_id_complete (sort_chats cs) id (has_id-sort id cs ∙ h) in
    rw (found, reselect_by_id) (chat_index_by_id_found (sort_chats cs) id i found)
