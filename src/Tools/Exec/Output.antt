-- ===== src/Tools/Exec/Output.antt =====
-- internal/ui/chattools.go and internal/identity: what no call of a tool decides.
use beeper_tui.Base.{
  ◌≡◌, refl, ◌∙◌, ℕ, Bool, true, false, not, ◌||◌, ◌⊎◌, String, ◌==◌, List, [], ◌∷◌, ◌++◌, Option,
  none, some, Result, ok, error, if◌then◌else◌, ltb, length, fields, trim_space, Option-cases, inl,
  inr, lookup,
}
use beeper_tui.Platform.{Platform}
use beeper_tui.Api.{Chat, Contact}
use beeper_tui.Cards.{Yaml}
use beeper_tui.Cards.Store.{Store}
use beeper_tui.Cards.Sweep.{SweepApi}
use beeper_tui.Identity.Person.{normalize, contains_string, networks}
use beeper_tui.Identity.Policy.{MergePolicy, allow_name_merge, decide, common_full_name}
use beeper_tui.Identity.Builder.{
  Builder, Sighting, KeySet, Matches, add, all_matches, gate_name, keys_of, record_keys, find,
  strong_matches, is_dst, contains_person, person_at,
}
use beeper_tui.Identity.Build.{build_with_policy, add_all, sightings, empty_builder}
use beeper_tui.Tools.{ToolsApi}
use beeper_tui.Tools.Cards.{
  ToolEnv, tool_search_contacts, tool_person_card, tool_update_person_card,
}
use beeper_tui.Tools.Resolve.{resolve_person}
use beeper_tui.Tools.Listing.{Answer, parse_tool_args}
use beeper_tui.Tools.Exec.{run_tool, exec_chat_tool}

-- The names whose merges the user has approved and denied.
abbrev pub decisions : Option MergePolicy → Option (List String × List String)
decisions none = none
decisions (some mp) = some (mp.approved, mp.denied)

-- One of two that agree with a third.
either_same :
    {A : Type 0}
    → (t : Bool) (a b : A) (f : A → Option (List String × List String))
      (d : Option (List String × List String))
    → f a ≡ d
    → f b ≡ d
    → f (if t then a else b) ≡ d
either_same true a b f d h g = h
either_same false a b f d h g = g

module _ ⦃platform : Platform⦄ where
  decide-decisions :
      (n : String) (seen : List String) (mp : MergePolicy)
      → decisions (some (decide n seen mp).1) ≡ decisions (some mp)
  decide-decisions n seen mp =
      let f = λ (r : Bool × MergePolicy). decisions (some r.1) in
      either_same (contains_string n mp.denied) _ _ f _ refl (
        either_same (contains_string n mp.approved) _ _ f _ refl
          (either_same (not (common_full_name (fields n))) _ _ f _ refl refl))

  policy-decisions :
      (policy : Option MergePolicy) (name : String) (seen : List String)
      → decisions (allow_name_merge policy name seen).1 ≡ decisions policy
  unfolding allow_name_merge
  policy-decisions none name seen =
      either_same (ltb (length (fields (normalize name))) 2) _ _
        (λ (r : Bool × Option MergePolicy). decisions r.1) _ refl refl
  policy-decisions (some mp) name seen =
      either_same (ltb (length (fields (normalize name))) 2) _ _
        (λ (r : Bool × Option MergePolicy). decisions r.1) _ refl
        (decide-decisions (normalize name) seen mp)

  gate-decisions :
      (s : Sighting) (p : ℕ) (ms : Matches) (b : Builder)
      → decisions (gate_name s p ms b).1.policy ≡ decisions b.policy
  gate-decisions s p ms b =
      either_same (is_dst ms.dst p || contains_person ms.extra p) _ _
        (λ (r : Matches × Builder). decisions r.1.policy) _ refl
        (policy-decisions b.policy s.name (networks (person_at b.entries p) ++ s.acct.network ∷ []))

  matches-decisions :
      (k : KeySet) (s : Sighting) (b : Builder)
      → decisions (all_matches k s b).1.policy ≡ decisions b.policy
  unfolding all_matches
  matches-decisions k s b = elim (Option-cases (lookup k.name b.by_name)) [
    | inl missing ↦ rw (all_matches, missing) refl
    | inr (i, found) ↦
        rw (all_matches, found) (gate-decisions s (find b.entries i) (strong_matches k b) b)
  ]

  add-decisions : (s : Sighting) (b : Builder) → decisions (add s b).policy ≡ decisions b.policy
  unfolding add record_keys
  add-decisions s b = matches-decisions (keys_of s) s b

  add_all-decisions :
      (ss : List Sighting) (b : Builder) → decisions (add_all ss b).policy ≡ decisions b.policy
  unfolding add_all
  add_all-decisions [] b = refl
  add_all-decisions (s ∷ ss) b = add_all-decisions ss (add s b) ∙ add-decisions s b

  build-decisions :
      (chats : List Chat) (contacts : List Contact) (policy : Option MergePolicy)
      → decisions (build_with_policy chats contacts policy).1 ≡ decisions policy
  unfolding build_with_policy empty_builder
  build-decisions chats contacts policy =
      add_all-decisions (sightings chats contacts) (empty_builder policy)

Result-cases : {A : Type 0} (r : Result A) → ((a : A) × (r ≡ ok a)) ⊎ ((e : String) × (r ≡ error e))
Result-cases (ok a) = inl (a, refl)
Result-cases (error e) = inr (e, refl)

abbrev env_decisions : Answer × ToolEnv → Option (List String × List String)
env_decisions r = decisions r.1.merges

module _ ⦃api : ToolsApi⦄ ⦃platform : Platform⦄ where
  resolve-decisions :
      (merges : Option MergePolicy) (name : String)
      → decisions (resolve_person merges name).1 ≡ decisions merges
  unfolding resolve_person
  resolve-decisions merges name = elim (Result-cases api.list_chats) [
    | inl (chats, read) ↦ rw (resolve_person, read) (build-decisions _ _ merges)
    | inr (e, failed) ↦ rw (resolve_person, failed) refl
  ]

  module _ ⦃yaml : Yaml⦄ where
    search-decisions :
        (env : ToolEnv) (args : String)
        → env_decisions (tool_search_contacts env args) ≡ decisions env.merges
    unfolding tool_search_contacts
    search-decisions env args =
        either_same (trim_space (parse_tool_args args).query == "") _ _ env_decisions _ refl
          (elim (Result-cases api.list_chats) [
            | inl (chats, read) ↦ rw read (build-decisions _ _ env.merges)
            | inr (e, failed) ↦ rw failed refl
          ])

    card-decisions :
        (env : ToolEnv) (args : String)
        → env_decisions (tool_person_card env args) ≡ decisions env.merges
    unfolding tool_person_card
    card-decisions env args = elim (Option-cases env.people) [
      | inl missing ↦ rw (tool_person_card, missing) refl
      | inr (store, there) ↦
          rw (tool_person_card, there)
            (either_same (trim_space (parse_tool_args args).name == "") _ _ env_decisions _ refl
              (resolve-decisions env.merges (parse_tool_args args).name))
    ]

    module _ ⦃sweep_api : SweepApi⦄ where
      update-decisions :
          (env : ToolEnv) (args : String)
          → env_decisions (tool_update_person_card env args) ≡ decisions env.merges
      unfolding tool_update_person_card
      update-decisions env args =
          let name = (parse_tool_args args).name in
          let f = λ (r : (Answer × Store) × Option MergePolicy). decisions r.1 in
          elim (Option-cases env.people) [
            | inl missing ↦ rw (tool_update_person_card, missing) refl
            | inr (store, there) ↦
                rw (tool_update_person_card, there)
                  (either_same (not env.has_llm) _ _ f _ refl (
                    either_same (trim_space name == "") _ _ f _ refl
                      (resolve-decisions env.merges name)))
          ]

      -- Whatever the model calls, with whatever arguments, no tool decides about a merge: the names
      -- that the user approved and denied are the same after the call, and where there was no policy
      -- there is none. Only what is pending may change.
      pub exec_chat_tool-decisions :
          (env : ToolEnv) (name args : String)
          → decisions (exec_chat_tool env name args).1.merges ≡ decisions env.merges
      unfolding exec_chat_tool run_tool
      exec_chat_tool-decisions env name args =
          let f = env_decisions in
          either_same (name == "list_chats") _ _ f _ refl (
            either_same (name == "list_messages") _ _ f _ refl (
              either_same (name == "search_messages") _ _ f _ refl (
                either_same (name == "unanswered_chats") _ _ f _ refl (
                  either_same (name == "search_contacts") _ _ f _ (search-decisions env args) (
                    either_same (name == "set_reminder") _ _ f _ refl (
                      either_same (name == "person_card") _ _ f _ (card-decisions env args) (
                        either_same (name == "update_person_card") _ _ f _
                          (update-decisions env args) refl)))))))
