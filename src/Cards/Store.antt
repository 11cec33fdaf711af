-- ===== src/Cards/Store.antt =====
-- internal/person/card.go and extract.go: the directory of the cards, with the files beside them. The
-- files are kept by their stems.
pub mod Slugs
use beeper_tui.Base.{
  ◌≡◌, refl, ◌>>=◌, ℕ, String, ◌==◌, List, [], ◌∷◌, Option, none, some, Result, ok, error, lookup,
  insert, lookup-insert, if◌then◌else◌, texts, Bool-cases, inl, inr,
}
use beeper_tui.Platform.{Platform}
use beeper_tui.Cards.{Card, Yaml, blank_card, parse_card, render_card, slug}

-- `Store`: the cards, `.sweep.json` and `.extracted.json`. `failure` is what every write fails with.
pub record Store : Type 0 where
  pub files : List (String × String)
  pub marks : List (String × ℕ)
  pub provenance : List (String × List (String × String))
  pub failure : Option String

abbrev records_of : String → Store → List (String × String)
records_of stem store = elim (lookup stem store.provenance) [ none ↦ [] | some records ↦ records ]

-- The loop over `prov`.
add_records : List (String × String) → List (String × String) → List (String × String)
add_records [] records = records
add_records ((field, quote) ∷ prov) records = add_records prov (insert field quote records)

module _ ⦃platform : Platform⦄ where
  -- `RecordProvenance`, whose error the sweep drops. The times of the records are left out.
  unfoldable pub record_provenance : String → List (String × String) → Store → Store
  unfolding add_records
  record_provenance name [] store = store
  record_provenance name (p ∷ prov) store = elim store.failure [
    | some e ↦ store
    | none ↦ record store {
      provenance =
          insert (slug name) (add_records (p ∷ prov) (records_of (slug name) store))
            store.provenance;
    }
  ]

  -- `Provenance`.
  unfoldable pub provenance_of : String → Store → List (String × String)
  provenance_of name store = records_of (slug name) store

  module _ ⦃yaml : Yaml⦄ where
    -- `Load`.
    unfoldable pub load : String → Store → Result Card
    load name store = elim (lookup (slug name) store.files) [
      | none ↦ ok (blank_card name)
      | some text ↦ parse_card text name
    ]

    -- `Save`: the file is named after the card, not after the name that the card was loaded by.
    unfoldable pub save : Card → Store → Result Store
    save c store = elim (render_card c) [
      | error e ↦ error e
      | ok text ↦ elim store.failure [
        | some e ↦ error (texts ("person: write card: " ∷ e ∷ []))
        | none ↦ ok (record store { files = insert (slug c.name) text store.files })
      ]
    ]

    -- Where the text of a card can be written, reading after saving parses that text for every name
    -- that has the stem of the card's own name, and answers as before the save for any other name.
    pub load-save :
        (c : Card) (store : Store) (text name : String)
        → render_card c ≡ ok text
        → store.failure ≡ none
        → (save c store >>= (λ saved. load name saved))
          ≡ (if slug c.name == slug name then parse_card text name else load name store)
    unfolding load save
    load-save c store text name rendered works =
        rw (save, rendered, works, load, lookup-insert (slug c.name) (slug name) text store.files)
          (elim (Bool-cases (slug c.name == slug name)) [
            | inl same ↦ rw (same) refl
            | inr other ↦ rw (other) refl
          ])
