-- ===== src/Cards/Sweep.antt =====
-- internal/person/sweep.go and extract.go: the sweep over the people with gaps in their cards. What it
-- calls outside the package is the interface `SweepApi`.
pub mod Bounds
use beeper_tui.Base.{
  ℕ, zero, suc, ◌-◌, Bool, false, not, ◌&&◌, ◌||◌, String, ◌==◌, List, [], ◌∷◌, ◌++◌, Option, none,
  some, Result, ok, error, ◌>>=◌, lookup, insert, if◌then◌else◌, leb, ltb, eqb, length, drop, keep,
  texts,
}
use beeper_tui.Platform.{Platform}
use beeper_tui.Api.{Chat, Message}
use beeper_tui.Identity.Person.{Person, ChatRef}
use beeper_tui.Identity.Policy.{MergePolicy}
use beeper_tui.Identity.Build.{build_with_policy}
use beeper_tui.Cards.{Card, Found, Yaml, card_full, merge_card, slug}
use beeper_tui.Cards.Store.{Store, load, save, record_provenance}

pub record SweepApi : Type 0 where
  -- Whether a model is set or detected.
  pub model_ready : Bool
  pub list_chats : Result (List Chat)
  pub list_messages : String → Result (List Message)
  -- `lc.Complete` with the system prompt and the transcript, and `json.Unmarshal` of its reply.
  pub complete : String → String → Result String
  pub decode : String → Result Found
  -- `m.Timestamp.Format("2006-01-02")`.
  pub date : ℕ → String
  -- `sort.Slice` by the last activity, whose order of equals is not stated.
  pub sort_targets : List Person → List Person
  -- `time.Now()`, and `ctx.Err() != nil` at the target of an index.
  pub now : ℕ
  pub cancelled : ℕ → Bool

-- `sweepCooldown` in seconds, `sweepMessageCap`, and how many chats of one person are read.
abbrev pub sweep_cooldown : ℕ
sweep_cooldown = 86400

abbrev pub sweep_message_cap : ℕ
sweep_message_cap = 80

abbrev pub sweep_chats : ℕ
sweep_chats = 3

-- The last `room` messages, where there are more.
abbrev pub last_messages : ℕ → List Message → List Message
last_messages room part = if ltb room (length part) then drop (length part - room) part else part

-- The messages of one more chat, none where reading it fails.
abbrev pub with_part : List Message → Result (List Message) → List Message
with_part msgs (error e) = msgs
with_part msgs (ok part) = msgs ++ last_messages (sweep_message_cap - length msgs) part

-- The transcript of `Extract`.
transcript : (ℕ → String) → List Message → String
transcript date [] = ""
transcript date (m ∷ msgs) =
    let rest = transcript date msgs in
    if m.is_reaction || m.text == ""
    then rest
    else texts (
        "["
        ∷ date m.timestamp
        ∷ "] "
        ∷ (if m.is_from_me then "me" else m.sender_name)
        ∷ ": "
        ∷ m.text
        ∷ "\n"
        ∷ rest
        ∷ [])

abbrev system_prompt : String → String
system_prompt name = texts (
    "Extract facts about " ∷ name
    ∷ " from the chat transcript.\nOnly record what the messages explicitly state about " ∷ name
    ∷ ": their birthday (YYYY-MM-DD or MM-DD), the city they live in, the country they live in, and things they like.\n"
    ∷ "For each fact, quote the single message that states it, verbatim, in \"quote\".\n"
    ∷ "If the messages do not state a fact, leave both value and quote empty. Never guess." ∷ [])

module _ ⦃api : SweepApi⦄ where
  -- `Extract`.
  unfoldable pub extract : String → List Message → Result Found
  unfolding transcript
  extract name msgs = api.complete (system_prompt name) (transcript api.date msgs) >>= (λ out.
      elim (api.decode out) [
        | ok f ↦ ok f
        | error e ↦ error (texts ("person: decode extraction: " ∷ e ∷ []))
      ])

  -- The loop over the chats of one person, of which `n` may still be read.
  unfoldable pub gather : ℕ → List ChatRef → List Message → List Message
  gather zero refs msgs = msgs
  gather (suc n) [] msgs = msgs
  gather (suc n) (ref ∷ refs) msgs =
      if leb sweep_message_cap (length msgs)
      then msgs
      else gather n refs (with_part msgs (api.list_messages ref.id))

  -- Whether the person was swept less than a day ago.
  abbrev is_fresh : Option ℕ → Bool
  is_fresh none = false
  is_fresh (some at) = ltb (api.now - at) sweep_cooldown

  module _ ⦃platform : Platform⦄ ⦃yaml : Yaml⦄ where
    -- What is done with an extraction.
    unfoldable pub keep_found : Person → Card → Result Found → Store → Store
    keep_found t card (error e) store = store
    keep_found t card (ok found) store =
        let (card', changed, prov) = merge_card card found in
        if leb 1 (length changed)
        then elim (save card' store) [
          | error e ↦ store
          | ok saved ↦ record_provenance t.name prov saved
        ]
        else store

    -- A person who is swept: marked first, then extracted. The marks in memory are written to their
    -- file, and a failure to write them is dropped.
    unfoldable pub sweep_person : Person → Card → Store → Store
    sweep_person t card store =
        let msgs = gather sweep_chats t.chats [] in
        let marked = record store { marks = insert (slug t.name) api.now store.marks } in
        if eqb (length msgs) 0 then marked else keep_found t card (extract t.name msgs) marked

    -- The card of a person to sweep: it is read, has gaps, and was not swept lately.
    abbrev due_card : Person → Store → Option Card
    due_card t store = elim (load t.name store) [
      | error e ↦ none
      | ok card ↦
          if card_full card || is_fresh (lookup (slug t.name) store.marks) then none else some card
    ]

    -- The loop over the targets from index `i`, with the people that may still be swept: the store, and
    -- how many were.
    unfoldable pub sweep_targets : ℕ → ℕ → List Person → Store → Store × ℕ
    sweep_targets i room [] store = (store, 0)
    sweep_targets i zero (t ∷ ts) store = (store, 0)
    sweep_targets i (suc room) (t ∷ ts) store =
        if api.cancelled i then (store, 0) else elim (due_card t store) [
          | none ↦ sweep_targets (suc i) (suc room) ts store
          | some card ↦
              let (swept, done) = sweep_targets (suc i) room ts (sweep_person t card store) in
              (swept, suc done)
        ]

    abbrev is_target : Person → Bool
    is_target p = not (p.name == "") && leb 1 (length p.chats)

    -- `Sweep`.
    unfoldable pub sweep : ℕ → Option MergePolicy → Store → Store × ℕ
    sweep max merges store = if not api.model_ready then (store, 0) else elim api.list_chats [
      | error e ↦ (store, 0)
      | ok chats ↦
          sweep_targets 0 max
            (api.sort_targets (keep is_target (build_with_policy chats [] merges).0)) store
    ]
