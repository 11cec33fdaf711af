-- ===== src/Cards/Display.antt =====
-- internal/person/extract.go: the text of a card, with the quotes behind extracted values.
use beeper_tui.Base.{
  String, ◌==◌, List, [], ◌∷◌, Option, none, some, if◌then◌else◌, lookup, texts, map,
}
use beeper_tui.Platform.{Platform}
use beeper_tui.Cards.{Card}
use beeper_tui.Cards.Store.{Store, provenance_of}

-- The mark of a value that was extracted, with the quotes of `%q` and not its escapes.
abbrev quoted : Option String → String
quoted none = ""
quoted (some quote) = if quote == "" then "" else texts ("  (extracted: \"" ∷ quote ∷ "\")" ∷ [])

-- `row`, whose label is padded to nine characters.
abbrev row : List (String × String) → String → String → String → String
row prov field label val =
    if val == "" then "" else texts (label ∷ " " ∷ val ∷ quoted (lookup field prov) ∷ "\n" ∷ [])

module _ ⦃platform : Platform⦄ where
  -- `Render`.
  unfoldable pub render : Card → Store → String
  render c store =
      let prov = provenance_of c.name store in
      texts (
        c.name
        ∷ "\n"
        ∷ row prov "birthday" "birthday " c.birthday
        ∷ row prov "city" "city     " c.city
        ∷ row prov "country" "country  " c.country
        ∷ texts (
            map (λ (l : String). row prov (texts ("like:" ∷ platform.lower l ∷ [])) "likes    " l)
              c.likes)
        ∷ (if c.body == "" then "" else texts ("\n" ∷ c.body ∷ "\n" ∷ []))
        ∷ [])
