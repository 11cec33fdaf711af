-- ===== src/Identity/Policy.antt =====
-- internal/identity/mergefile.go: whether two people of one name are merged across accounts. The
-- file is what its YAML decodes to; a nil policy is `none`.
use beeper_tui.Base.{
  Bool, true, false, not, ◌&&◌, ◌||◌, String, List, [], ◌∷◌, Option, none, some, map, if◌then◌else◌,
  ltb, keep, length, fields, lookup, insert,
}
use beeper_tui.Platform.{Platform}
use beeper_tui.Identity.Person.{normalize, append_unique, contains_string}
use beeper_tui.Identity.CommonNames.{common_first_names, common_surnames}

-- Sets of normalized names are lists.
pub record MergePolicy : Type 0 where
  pub approved : List String
  pub denied : List String
  pub pending : List (String × List String)

-- What the file decodes to: `mergeFile`.
pub record MergeFile : Type 0 where
  pub approved : List String
  pub denied : List String
  pub pending : List (String × List String)

abbrev pub last_word : String → List String → String
last_word w [] = w
last_word w (v ∷ vs) = last_word v vs

-- `commonFullName`, of the words of a normalized name.
unfoldable pub common_full_name : List String → Bool
common_full_name [] = false
common_full_name (w ∷ []) = false
common_full_name (w ∷ v ∷ vs) =
    contains_string w common_first_names && contains_string (last_word v vs) common_surnames

-- `mp.pending[n]`, nil where it is missing.
abbrev pub networks_of : String → List (String × List String) → List String
networks_of n pending = elim (lookup n pending) [ none ↦ [] | some ns ↦ ns ]

module _ ⦃platform : Platform⦄ where
  abbrev pub decide : String → List String → MergePolicy → Bool × MergePolicy
  decide n seen mp =
      if contains_string n mp.denied
      then (false, mp)
      else if contains_string n mp.approved
      then (true, mp)
      else if not (common_full_name (fields n))
      then (true, mp)
      else (
        false,
        record mp { pending = insert n (append_unique (networks_of n mp.pending) seen) mp.pending },
      )

  -- `allowNameMerge`, with the policy that it leaves.
  unfoldable pub allow_name_merge :
      Option MergePolicy → String → List String → Bool × Option MergePolicy
  allow_name_merge policy name seen =
      let n = normalize name in
      if ltb (length (fields n)) 2 then (false, policy) else elim policy [
        | none ↦ (not (common_full_name (fields n)), none)
        | some mp ↦ let (allowed, mp') = decide n seen mp in (allowed, some mp')
      ]

  -- `LoadMergePolicy` of a file that decodes, or of the empty one where it is missing.
  unfoldable pub load_merge_policy : MergeFile → MergePolicy
  load_merge_policy f = record {
    approved = map normalize f.approved;
    denied = map normalize f.denied;
    pending = [];
  }

abbrev is_nil {ℓ} : {A : Type ℓ} → List A → Bool
is_nil [] = true
is_nil (x ∷ xs) = false

-- What `SaveMergePolicy` writes, none where it leaves the file alone. The sorting of the names is left
-- out: the file is read as sets.
unfoldable pub save_merge_policy : Option MergePolicy → Option MergeFile
save_merge_policy none = none
save_merge_policy (some mp) =
    let undecided =
      keep
        (λ (p : String × List String).
          not (contains_string p.0 mp.approved || contains_string p.0 mp.denied))
        mp.pending in
    if is_nil mp.approved && is_nil mp.denied && is_nil undecided
    then none
    else some (record { approved = mp.approved; denied = mp.denied; pending = undecided })
