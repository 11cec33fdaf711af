-- ===== src/Tools/Cards.antt =====
-- internal/ui/chattools.go: the tools that find people, show their cards and extract into them. The loop
-- that gathers the messages of a person is that of the sweep.
use beeper_tui.Base.{
  Bool, not, ◌&&◌, String, ◌==◌, List, [], ◌∷◌, ◌++◌, Option, none, some, Result, ok, error,
  or_zero_value, map, take, length, if◌then◌else◌, leb, eqb, trim_space, texts, join,
}
use beeper_tui.Platform.{Platform}
use beeper_tui.Model.{ToolStep}
use beeper_tui.Messages.{truncate}
use beeper_tui.Identity.Person.{Person, ChatRef, networks}
use beeper_tui.Identity.Policy.{MergePolicy}
use beeper_tui.Identity.Build.{build_with_policy}
use beeper_tui.Identity.Search.{search, candidates}
use beeper_tui.Cards.{Card, Found, Yaml, merge_card}
use beeper_tui.Cards.Store.{Store, load, save, record_provenance}
use beeper_tui.Cards.Sweep.{SweepApi, gather, extract, sweep_chats}
use beeper_tui.Cards.Display.{render}
use beeper_tui.Tools.{ToolsApi}
use beeper_tui.Tools.Resolve.{resolve_person}
use beeper_tui.Tools.Listing.{Answer, step_of, parse_tool_args}

-- `toolEnv`: the store, none for nil, whether there is a model, and the merge policy.
pub record ToolEnv : Type 0 where
  pub people : Option Store
  pub has_llm : Bool
  pub merges : Option MergePolicy

-- Whether a card has nothing to show.
abbrev is_blank_card : Card → Bool
is_blank_card c =
    c.birthday == "" && c.city == "" && c.country == "" && eqb (length c.likes) 0 && c.body == ""

abbrev fact : String → String → List String
fact label value = if value == "" then [] else texts (label ∷ " " ∷ value ∷ []) ∷ []

abbrev card_facts : Card → List String
card_facts c =
    fact "birthday" c.birthday
    ++ fact "city" c.city
    ++ fact "country" c.country
    ++ (if eqb (length c.likes) 0 then [] else texts ("likes " ∷ join c.likes ", " ∷ []) ∷ [])

module _ ⦃api : ToolsApi⦄ ⦃platform : Platform⦄ ⦃yaml : Yaml⦄ where
  -- One line of `appendCardFacts`, none where there is nothing to say.
  abbrev fact_line : Store → Person → List String
  fact_line store p = elim (load p.name store) [
    | error e ↦ []
    | ok card ↦
        if eqb (length (card_facts card)) 0
        then []
        else texts (card.name ∷ ": " ∷ join (card_facts card) "; " ∷ "\n" ∷ []) ∷ []
  ]

  abbrev fact_lines : Store → List Person → List String
  fact_lines store [] = []
  fact_lines store (p ∷ ps) = fact_line store p ++ fact_lines store ps

  abbrev with_heading : List String → String
  with_heading [] = ""
  with_heading (l ∷ ls) = texts ("\nknown facts:\n" ∷ l ∷ ls)

  -- `appendCardFacts`.
  unfoldable pub append_card_facts : ToolEnv → List Person → String
  append_card_facts env people = elim env.people [
    | none ↦ ""
    | some store ↦ with_heading (fact_lines store (take 5 people))
  ]

  abbrev person_line : Person → String
  person_line p = texts (
      p.name
      ∷ " | "
      ∷ join p.usernames ", "
      ∷ " | "
      ∷ join (networks p) ", "
      ∷ " | "
      ∷ join p.phones ", "
      ∷ " | "
      ∷ join p.emails ", "
      ∷ " | "
      ∷ join (map (λ (r : ChatRef). r.title) (take 2 p.chats)) "; "
      ∷ "\n"
      ∷ [])

  abbrev or_candidates : String → List Person → List Person → List Person
  or_candidates query people [] = candidates query people
  or_candidates query people (p ∷ ps) = p ∷ ps

  abbrev show_people : ToolEnv → ToolStep → List Person → Answer
  show_people env step [] = (ok "no contacts match", record step { result = "0 found" })
  show_people env step (p ∷ ps) = (
    ok (
        texts (
          "name | handle | networks | phone | email | chats\n"
          ∷ texts (map person_line (p ∷ ps))
          ∷ append_card_facts env (p ∷ ps)
          ∷ [])),
    record step { result = texts (platform.decimal (length (p ∷ ps)) ∷ " found" ∷ []) },
  )

  -- What the tools leave of the environment: the policy that an index leaves.
  abbrev pub with_merges : ToolEnv → Option MergePolicy → ToolEnv
  with_merges env merges = record env { merges = merges }

  -- `toolSearchContacts`, with the environment that it leaves.
  unfoldable pub tool_search_contacts : ToolEnv → String → Answer × ToolEnv
  unfolding append_card_facts
  tool_search_contacts env args =
      let query = (parse_tool_args args).query in
      let step = step_of "search_contacts" (truncate query 30) "" in
      if trim_space query == ""
      then ((error "query is required", step), env)
      else elim api.list_chats [
        | error e ↦ ((error e, step), env)
        | ok chats ↦
            let (people, left) =
              build_with_policy (chats ++ or_zero_value [] (api.search_chats query))
                (or_zero_value [] api.list_contacts ++ or_zero_value [] (api.search_contacts query))
                env.merges in
            (
              show_people env step (or_candidates query people (search query 20 people)),
              with_merges env left,
            )
      ]

  -- The name that a card is kept under: that of the person it resolves to, if it does.
  abbrev card_name : Result Person → String → String
  card_name (error e) name = name
  card_name (ok who) name = who.name

  abbrev show_card : Store → ToolStep → String → Answer
  show_card store step name = elim (load name store) [
    | error e ↦ (error e, step)
    | ok card ↦
        if is_blank_card card
        then (
          ok (
              texts (
                "no card yet for " ∷ name
                ∷ "; update_person_card can extract one from their messages" ∷ [])),
          record step { result = "empty" },
        )
        else (ok (render card store), record step { result = "shown" })
  ]

  -- `toolPersonCard`, with the environment that it leaves.
  unfoldable pub tool_person_card : ToolEnv → String → Answer × ToolEnv
  tool_person_card env args =
      let name = (parse_tool_args args).name in
      let step = step_of "person_card" (truncate name 30) "" in
      elim env.people [
        | none ↦ ((error "person store unavailable", step), env)
        | some store ↦
            let (who, left) = resolve_person env.merges name in
            let card = card_name who name in
            if trim_space name == "" then ((error "name is required", step), env) else (
              show_card store (record step { args = truncate card 30 }) card,
              with_merges env left,
            )
      ]

  -- A store on which writes fail refuses the save, before the quotes are recorded.
  abbrev keep_card :
      ToolStep → Person → Card → List String → List (String × String) → Store → Answer × Store
  keep_card step who card changed prov store = elim (save card store) [
    | error e ↦ ((error e, step), store)
    | ok saved ↦
        let recorded = record_provenance who.name prov saved in
        (
          (
            ok (texts ("added: " ∷ join changed ", " ∷ "\n\n" ∷ render card recorded ∷ [])),
            record step { result = texts (platform.decimal (length changed) ∷ " added" ∷ []) },
          ),
          recorded,
        )
  ]

  abbrev merge_found : ToolStep → Person → Found → Store → Answer × Store
  merge_found step who found store = elim (load who.name store) [
    | error e ↦ ((error e, step), store)
    | ok card ↦
        let (card', changed, prov) = merge_card card found in
        let step' = record step { args = truncate who.name 30 } in
        if leb 1 (length changed) then keep_card step' who card' changed prov store else (
          (
            ok (texts ("nothing new to add\n\n" ∷ render card' store ∷ [])),
            record step' { result = "nothing new" },
          ),
          store,
        )
  ]

  module _ ⦃sweep_api : SweepApi⦄ where
    abbrev extract_into : ToolStep → Store → Person → Answer × Store
    extract_into step store who =
        if eqb (length who.chats) 0
        then ((error (texts ("no chats with " ∷ who.name ∷ " to extract from" ∷ [])), step), store)
        else elim (extract who.name (gather sweep_chats who.chats [])) [
          | error e ↦ ((error e, step), store)
          | ok found ↦ merge_found step who found store
        ]

    abbrev extract_for : ToolStep → Store → Result Person → Answer × Store
    extract_for step store (error e) = ((error e, step), store)
    extract_for step store (ok who) = extract_into step store who

    abbrev pub update_card :
        ToolEnv → ToolStep → String → Store → (Answer × Store) × Option MergePolicy
    update_card env step name store =
        let (who, left) = resolve_person env.merges name in
        if not env.has_llm
        then (((error "person store unavailable", step), store), env.merges)
        else if trim_space name == ""
        then (((error "name is required", step), store), env.merges)
        else (extract_for step store who, left)

    -- `toolUpdatePersonCard`, with the environment that it leaves.
    unfoldable pub tool_update_person_card : ToolEnv → String → Answer × ToolEnv
    tool_update_person_card env args =
        let name = (parse_tool_args args).name in
        let step = step_of "update_person_card" (truncate name 30) "" in
        elim env.people [
          | none ↦ ((error "person store unavailable", step), env)
          | some store ↦
              let ((answer, left), merges) = update_card env step name store in
              (answer, record env { people = some left; merges = merges })
        ]
