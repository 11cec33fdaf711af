-- ===== src/Cards.antt =====
-- internal/person/card.go and extract.go: the cards of people, and what an extraction adds to one. The
-- encoding of the front matter is the interface `Yaml`.
pub mod Store
pub mod Sweep
pub mod Display
pub mod Filling
pub mod File
use Prim.Native.Char.{Char, code}
use beeper_tui.Base.{
  drop_runes, ℕ, zero, suc, Bool, true, false, not, ◌&&◌, ◌||◌, String, ◌==◌, List, [], ◌∷◌, ◌++◌,
  Option, none, some, Result, ok, error, ◌>>=◌, any, map, if◌then◌else◌, eqb, leb, has_prefix,
  trim_space, texts, insert, lookup,
}
use beeper_tui.Platform.{Platform}

pub record Card : Type 0 where
  pub name : String
  pub birthday : String
  pub city : String
  pub country : String
  pub likes : List String
  pub body : String

pub record Fact : Type 0 where
  pub value : String
  pub quote : String

pub record Found : Type 0 where
  pub birthday : Fact
  pub city : Fact
  pub country : Fact
  pub likes : List Fact

-- `yaml.Marshal` and `yaml.Unmarshal` of a card, the latter over the fields that the text names.
pub record Yaml : Type 0 where
  pub marshal : Card → Result String
  pub unmarshal : String → Card → Result Card

-- `Card{Name: name}`.
abbrev pub blank_card : String → Card
blank_card name = record {
  name = name;
  birthday = "";
  city = "";
  country = "";
  likes = [];
  body = "";
}

-- `cardFull`.
unfoldable pub card_full : Card → Bool
card_full c =
    not (c.birthday == "")
    && not (c.city == "")
    && not (c.country == "")
    && any (λ like. true) c.likes

-- What a file name keeps of a character.
abbrev is_kept : ℕ → Bool
is_kept c = leb b'a' c && leb c b'z' || leb b'0' c && leb c b'9'

abbrev is_dash : ℕ → Bool
is_dash c = eqb c b' ' || eqb c b'-' || eqb c b'_'

-- The character '-'.
abbrev dash : Char
dash = Char.char 45 tt

slug_text : String → String
slug_text String.[] = ""
slug_text (String.◌∷◌ c s) =
    let rest = slug_text s in
    if is_kept (code c)
    then String.◌∷◌ c rest
    else if is_dash (code c)
    then String.◌∷◌ dash rest
    else rest

-- `strings.Trim(s, "-")`.
trim_left_dash : String → String
trim_left_dash String.[] = ""
trim_left_dash (String.◌∷◌ c s) =
    let rest = trim_left_dash s in if eqb (code c) b'-' then rest else String.◌∷◌ c s

trim_right_dash : String → String
trim_right_dash String.[] = ""
trim_right_dash (String.◌∷◌ c s) =
    let rest = trim_right_dash s in
    if eqb (code c) b'-' && rest == "" then "" else String.◌∷◌ c rest

-- The text before the first "\n---" and the text after it.
unfoldable pub cut_front : String → Option (String × String)
cut_front String.[] = none
cut_front (String.◌∷◌ c s) =
    let rest = cut_front s in
    if has_prefix "\n---" (String.◌∷◌ c s)
    then some ("", drop_runes 3 s)
    else elim rest [ none ↦ none | some (front, body) ↦ some (String.◌∷◌ c front, body) ]

-- The front matter and the rest of a file.
abbrev pub split_front : String → Option (String × String)
split_front text =
    if has_prefix "---\n" text
    then elim (cut_front (drop_runes 4 text)) [
      | none ↦ none
      | some (front, rest) ↦ some (front, if has_prefix "\n" rest then drop_runes 1 rest else rest)
    ]
    else none

-- The end of `parseCard`.
abbrev with_body : String → String → Card → Card
with_body name rest c = record c {
  body = trim_space rest;
  name = if c.name == "" then name else c.name;
}

module _ ⦃yaml : Yaml⦄ where
  -- `parseCard`.
  unfoldable pub parse_card : String → String → Result Card
  unfolding cut_front
  parse_card text name = elim (split_front text) [
    | none ↦ ok (with_body name text (blank_card name))
    | some (front, rest) ↦ elim (yaml.unmarshal front (blank_card name)) [
      | ok c ↦ ok (with_body name rest c)
      | error e ↦ error (texts ("person: parse card frontmatter: " ∷ e ∷ []))
    ]
  ]

  -- `renderCard`.
  unfoldable pub render_card : Card → Result String
  render_card c = elim (yaml.marshal c) [
    | ok front ↦ ok (
        texts (
          "---\n"
          ∷ front
          ∷ "---\n"
          ∷ (if c.body == "" then "" else texts ("\n" ∷ c.body ∷ "\n" ∷ []))
          ∷ []))
    | error e ↦ error (texts ("person: render card: " ∷ e ∷ []))
  ]

module _ ⦃platform : Platform⦄ where
  -- `Slug`.
  unfoldable pub slug : String → String
  unfolding slug_text trim_left_dash trim_right_dash
  slug name = trim_right_dash (trim_left_dash (slug_text (platform.lower (trim_space name))))

-- The value that `set` leaves, and whether it sets one.
abbrev pub is_set : String → Fact → Bool
is_set dst fact = not (not (dst == "") || trim_space fact.value == "")

unfoldable pub fill : String → Fact → String
fill dst fact = if is_set dst fact then trim_space fact.value else dst

-- What `Merge` has done so far.
pub record Merged : Type 0 where
  pub likes : List String
  pub changed : List String
  pub prov : List (String × String)

abbrev pub note : String → String → Fact → Merged → Merged
note field dst fact m =
    if is_set dst fact
    then record m { changed = m.changed ++ field ∷ []; prov = insert field fact.quote m.prov }
    else m

module _ ⦃platform : Platform⦄ where
  -- A like as `have` keeps it.
  abbrev pub like_key : String → String
  like_key like = platform.lower (trim_space like)

  abbrev pub add_like : Fact → Merged → Merged
  add_like fact m =
      let v = trim_space fact.value in
      record {
        likes = m.likes ++ v ∷ [];
        changed = m.changed ++ texts ("likes+" ∷ v ∷ []) ∷ [];
        prov = insert (texts ("like:" ∷ platform.lower v ∷ [])) fact.quote m.prov;
      }

  -- The loop over the facts, with the keys of the likes there are.
  unfoldable pub merge_likes : List String → List Fact → Merged → Merged
  merge_likes have [] m = m
  merge_likes have (fact ∷ facts) m =
      let key = like_key fact.value in
      let is_new = not (trim_space fact.value == "" || any (λ k. k == key) have) in
      merge_likes (if is_new then key ∷ have else have) facts
        (if is_new then add_like fact m else m)

  -- `Merge`: the card, with the fields that changed and the quotes.
  unfoldable pub merge_card : Card → Found → Card × List String × List (String × String)
  merge_card c f =
      let m = merge_likes (map like_key c.likes) f.likes (
        note "country" c.country f.country (
          note "city" c.city f.city (
            note "birthday" c.birthday f.birthday
              (record { likes = c.likes; changed = []; prov = [] })))) in
      (
        record c {
          birthday = fill c.birthday f.birthday;
          city = fill c.city f.city;
          country = fill c.country f.country;
          likes = m.likes;
        },
        m.changed,
        m.prov,
      )
