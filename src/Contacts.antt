-- ===== src/Contacts.antt =====
-- internal/ui/contacts.go: number-like titles of direct chats take the saved name of the contact.
-- The update of the redaction vault by `applyContactsLoaded` is an effect outside the state.
use beeper_tui.Base.{
  Bool, true, false, not, ◌&&◌, ◌||◌, String, ◌==◌, List, [], ◌∷◌, Option, none, some, map,
  if◌then◌else◌, ltb, leb, lookup, insert,
}
use Prim.Native.String.{len}
use beeper_tui.Platform.{Platform}
use beeper_tui.Api.{Chat, Contact}
use beeper_tui.Model.{Model}
use beeper_tui.Identity.Handle.{digits_only, is_handle_like}

-- `strings.HasSuffix(s, p)`.
has_suffix : String → String → Bool
has_suffix p String.[] = p == ""
has_suffix p (String.◌∷◌ c s) = p == String.◌∷◌ c s || has_suffix p s

-- `sameNumber`: equal digits, or one side ends in the other and both are long.
unfoldable pub same_number : String → String → Bool
unfolding has_suffix
same_number a b =
    if a == b
    then true
    else if ltb (len a) 10 || ltb (len b) 10
    then false
    else has_suffix b a || has_suffix a b

abbrev is_named : Contact → Bool
is_named ct = not (ct.full_name == "" || is_handle_like ct.full_name)

-- The numbers of the named contacts, in order, each with the name.
numbers_of : List Contact → List (String × String)
numbers_of [] = []
numbers_of (ct ∷ cts) =
    let rest = numbers_of cts in
    let d = digits_only ct.phone_number in
    if is_named ct && leb 7 (len d) then (d, ct.full_name) ∷ rest else rest

abbrev name_for : String → List (String × String) → Option String
name_for d [] = none
name_for d ((digits, name) ∷ ns) =
    let rest = name_for d ns in if same_number d digits then some name else rest

abbrev pub retitle : Option String → Chat → Chat
retitle none c = c
retitle (some name) c = record c { title = name }

module _ ⦃platform : Platform⦄ where
  abbrev add_handle : String → String → List (String × String) → List (String × String)
  add_handle h name handles = if h == "" then handles else insert (platform.lower h) name handles

  -- `byHandle`: a later contact replaces an earlier one.
  handles_of : List (String × String) → List Contact → List (String × String)
  handles_of handles [] = handles
  handles_of handles (ct ∷ cts) =
      handles_of
        (if is_named ct
          then add_handle ct.username ct.full_name (add_handle ct.email ct.full_name handles)
          else handles)
        cts

  -- The title that a chat gets: by its handle, or else by its digits.
  resolved_title : List (String × String) → List (String × String) → Chat → Option String
  resolved_title handles numbers c =
      let d = digits_only c.title in
      if not (c.type == "single") || not (is_handle_like c.title)
      then none
      else elim (lookup (platform.lower c.title) handles) [
        | some name ↦ some name
        | none ↦ if ltb (len d) 7 then none else name_for d numbers
      ]

  -- `resolveChatTitles`.
  unfoldable pub resolve_chat_titles : List Contact → List Chat → List Chat
  unfolding resolved_title handles_of numbers_of
  resolve_chat_titles [] chats = chats
  resolve_chat_titles (ct ∷ cts) chats =
      let handles = handles_of [] (ct ∷ cts) in
      let numbers = numbers_of (ct ∷ cts) in
      map (λ c. retitle (resolved_title handles numbers c) c) chats

  -- `applyContactsLoaded`.
  unfoldable pub apply_contacts_loaded : List Contact → Model → Model
  apply_contacts_loaded contacts m = record m {
    contacts = contacts;
    chats = resolve_chat_titles contacts m.chats;
  }
