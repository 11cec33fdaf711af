-- ===== src/Cards/File.antt =====
-- internal/person/card.go: a card that is written to its file and read back.
use beeper_tui.Base.{
  ◌≡◌, refl, sym, ap, ◌∙◌, Bool, true, false, ◌&&◌, ◌||◌, String, ◌==◌, [], ◌∷◌, some, none, ok,
  ◌>>=◌, if◌then◌else◌, eqb, has_prefix, contains, trim_space, texts, Bool-cases, inl, inr, arith,
  is_space, trim_left, trim_right, eq_iff,
}
use Prim.Native.Char.{code}
use Prim.Native.String.{◌++◌ as append}
use text.Mathlib.TextLemmas.{cons-append, nil-append, append-nil}
use beeper_tui.Platform.{Platform}
use beeper_tui.Cards.Store.{Store, load, save, load-save}
use beeper_tui.Cards.{Card, Yaml, blank_card, cut_front, split_front, parse_card, render_card, slug}

-- The concatenation by clauses, which computes on any texts.
joined : String → String → String
joined String.[] t = t
joined (String.◌∷◌ c s) t = String.◌∷◌ c (joined s t)

joined_lem : (s t : String) → append s t ≡ joined s t
unfolding joined
joined_lem String.[] t = nil-append t
joined_lem (String.◌∷◌ c s) t = cons-append c s t ∙ ap (String.◌∷◌ c) (joined_lem s t)

pre1 : (g r : String) → has_prefix "-" (joined g (joined "\n" r)) ≡ has_prefix "-" g
unfolding has_prefix joined
pre1 String.[] r = refl
pre1 (String.◌∷◌ c g) r = refl

pre2 : (g r : String) → has_prefix "--" (joined g (joined "\n" r)) ≡ has_prefix "--" g
unfolding has_prefix joined
pre2 String.[] r = refl
pre2 (String.◌∷◌ c g) r = ap (λ b. eqb 45 (code c) && b) (pre1 g r)

pre3 : (g r : String) → has_prefix "---" (joined g (joined "\n" r)) ≡ has_prefix "---" g
unfolding has_prefix joined
pre3 String.[] r = refl
pre3 (String.◌∷◌ c g) r = ap (λ b. eqb 45 (code c) && b) (pre2 g r)

neither : (a b : Bool) → (a || b) ≡ false → (a ≡ false) × (b ≡ false)
neither a b h = (ground arith, ground arith)

-- The front matter ends at the first line of dashes.
cut_front-joined :
    (f rest : String)
    → contains "\n---" f ≡ false
    → cut_front (joined f (joined "\n" (joined "---" rest))) ≡ some (f, rest)
unfolding cut_front contains has_prefix joined
cut_front-joined String.[] rest h = refl
cut_front-joined (String.◌∷◌ c f) rest h =
    let (here, later) = neither _ _ h in
    let on : (eqb 10 (code c) && has_prefix "---" (joined f (joined "\n" (joined "---" rest))))
        ≡ false =
      ap (λ b. eqb 10 (code c) && b) (pre3 f (joined "---" rest)) ∙ here in
    rw (cut_front, on, cut_front-joined f rest later) refl

trim_right-newline : (s : String) → trim_right (joined s "\n") ≡ trim_right s
unfolding trim_right joined
trim_right-newline String.[] = refl
trim_right-newline (String.◌∷◌ c s) = rw (trim_right, trim_right-newline s) refl

trim_space-newline : (s : String) → trim_space (joined s "\n") ≡ trim_space s
unfolding trim_space trim_left joined
trim_space-newline String.[] = refl
trim_space-newline (String.◌∷◌ c s) = elim (Bool-cases (is_space (code c))) [
  | inl blank ↦ rw (trim_left, blank) (trim_space-newline s)
  | inr kept ↦ rw (trim_left, kept) (trim_right-newline (String.◌∷◌ c s))
]

joined_assoc : (s t u : String) → joined (joined s t) u ≡ joined s (joined t u)
unfolding joined
joined_assoc String.[] t u = refl
joined_assoc (String.◌∷◌ c s) t u = ap (String.◌∷◌ c) (joined_assoc s t u)

-- The text that `renderCard` writes, of the front matter without its last newline and of the rest.
file : String → String → String
file f tail = joined "---\n" (joined f (joined "\n" (joined "---" (joined "\n" tail))))

file_lem : (f tail : String) → texts ("---\n" ∷ append f "\n" ∷ "---\n" ∷ tail ∷ []) ≡ file f tail
unfolding file joined
file_lem f tail =
    let rest = append "---\n" (append tail "") in
    let last : rest ≡ joined "---\n" tail =
      ap (append "---\n") (append-nil tail) ∙ joined_lem "---\n" tail in
    joined_lem "---\n" (append (append f "\n") rest)
    ∙ ap (joined "---\n") (
        joined_lem (append f "\n") rest
        ∙ ap (λ s. joined s rest) (joined_lem f "\n")
        ∙ joined_assoc f "\n" rest
        ∙ ap (λ r. joined f (joined "\n" r)) last)

split_front-file :
    (f tail : String) → contains "\n---" f ≡ false → split_front (file f tail) ≡ some (f, tail)
unfolding file joined has_prefix
split_front-file f tail h = rw (cut_front-joined f (joined "\n" tail) h) refl

-- The text of a body, as it is written.
abbrev tail_of : String → String
tail_of body = if body == "" then "" else texts ("\n" ∷ body ∷ "\n" ∷ [])

trim_space-tail : (body : String) → trim_space body ≡ body → trim_space (tail_of body) ≡ body
unfolding trim_space trim_left joined
trim_space-tail body trimmed = elim (Bool-cases (body == "")) [
  | inl empty ↦ rw (empty) (sym ((eq_iff body "").0 empty))
  | inr full ↦ rw (full) (
      ap trim_space (joined_lem "\n" (append body (append "\n" "")))
      ∙ ap (λ s. trim_space (append body s)) (append-nil "\n")
      ∙ ap trim_space (joined_lem body "\n")
      ∙ trim_space-newline body
      ∙ trimmed)
]

module _ ⦃yaml : Yaml⦄ where
  -- How the encoding writes the fields of a card: lines without one of dashes, that it reads back.
  abbrev pub IsEncoded : Card → String → String → Type 0
  IsEncoded c f name =
      (yaml.marshal c ≡ ok (append f "\n"))
      × (contains "\n---" f ≡ false)
      × (yaml.unmarshal f (blank_card name) ≡ ok (record c { body = "" }))

  same_card :
      (c : Card) (name body : String)
      → body ≡ c.body
      → (c.name == "") ≡ false
      → record c { body = body; name = if c.name == "" then name else c.name } ≡ c
  same_card c name body same named = rw (same, named) refl

  parse_card-render_card :
      (c : Card) (f name : String)
      → IsEncoded c f name
      → trim_space c.body ≡ c.body
      → (c.name == "") ≡ false
      → (text : String) × (render_card c ≡ ok text) × (parse_card text name ≡ ok c)
  unfolding parse_card render_card
  parse_card-render_card c f name (wrote, plain, read) trimmed named =
      let text = texts ("---\n" ∷ append f "\n" ∷ "---\n" ∷ tail_of c.body ∷ []) in
      let split : split_front text ≡ some (f, tail_of c.body) =
        ap split_front (file_lem f (tail_of c.body)) ∙ split_front-file f (tail_of c.body) plain in
      (
        text,
        rw (render_card, wrote) refl,
        rw (parse_card, split, read)
            (ap ok (same_card c name _ (trim_space-tail c.body trimmed) named)),
      )

  module _ ⦃platform : Platform⦄ where
    -- A card that is saved is the card that is loaded afterwards, by its own name or by any other
    -- name that has the same file, where writes succeed: the text below the front matter included. Of
    -- the encoding of the front matter it is assumed that it reads back what it wrote and writes no
    -- line of dashes; the card has a name, and its text has no blanks at its ends.
    pub load-saved :
        (c : Card) (store : Store) (f name : String)
        → IsEncoded c f name
        → trim_space c.body ≡ c.body
        → (c.name == "") ≡ false
        → store.failure ≡ none
        → (slug c.name == slug name) ≡ true
        → (save c store >>= (λ saved. load name saved)) ≡ ok c
    load-saved c store f name encoded trimmed named works same =
        let (text, rendered, parsed) = parse_card-render_card c f name encoded trimmed named in
        load-save c store text name rendered works ∙ rw same parsed
