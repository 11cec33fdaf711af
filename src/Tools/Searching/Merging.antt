-- ===== src/Tools/Searching/Merging.antt =====
-- internal/ui/chattools.go: the hits of several searches, merged.
use beeper_tui.Base.{◌≡◌, ℕ, ◌+◌, Bool, false, String, ◌==◌, List, [], ◌∷◌, any, if◌then◌else◌}
use beeper_tui.Api.{MessageSearchResult}

-- The hit is the message of the ID.
abbrev pub is_message : String → MessageSearchResult → Bool
is_message id r = r.message.id == id

abbrev pub once : Bool → ℕ
once b = if b then 1 else 0

-- What is still to come of an ID that was seen, or is found further on.
abbrev still : Bool → Bool → ℕ
still seen found = if seen then 0 else once found

-- How many hits are the message of an ID.
abbrev pub hits_of : String → List MessageSearchResult → ℕ
hits_of id [] = 0
hits_of id (r ∷ rs) = once (is_message id r) + hits_of id rs

-- The message of the hit has an ID.
abbrev pub HasId : MessageSearchResult → Type 0
HasId r = (r.message.id == "") ≡ false

abbrev is_seen : String → List String → Bool
is_seen id seen = any (λ k. k == id) seen
