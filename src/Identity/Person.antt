-- ===== src/Identity/Person.antt =====
-- internal/identity/identity.go: a person, and what one observation adds to it. A person is a value
-- here; the builder keeps the pointers.
use beeper_tui.Base.{
  ℕ, Bool, not, ◌&&◌, ◌||◌, String, ◌==◌, List, [], ◌∷◌, ◌++◌, if◌then◌else◌, ltb, any, trim_space,
}
use beeper_tui.Platform.{Platform}
use beeper_tui.Identity.Handle.{is_handle_like}

pub record ChatRef : Type 0 where
  pub id : String
  pub title : String

pub record AccountRef : Type 0 where
  pub account_id : String
  pub user_id : String
  pub network : String

pub record Person : Type 0 where
  pub name : String
  pub alt_names : List String
  pub usernames : List String
  pub phones : List String
  pub emails : List String
  pub accounts : List AccountRef
  pub chats : List ChatRef
  pub last_active : ℕ

-- `&Person{}`, and `AccountRef{}`.
abbrev pub nobody : Person
nobody = record {
  name = "";
  alt_names = [];
  usernames = [];
  phones = [];
  emails = [];
  accounts = [];
  chats = [];
  last_active = 0;
}

abbrev pub no_account : AccountRef
no_account = record { account_id = ""; user_id = ""; network = "" }

-- `containsString`.
abbrev pub contains_string : String → List String → Bool
contains_string v xs = any (λ x. x == v) xs

-- The loop of `Networks`.
networks_from : List String → List AccountRef → List String
networks_from out [] = out
networks_from out (a ∷ accts) =
    networks_from
      (if not (a.network == "") && not (contains_string a.network out)
        then out ++ a.network ∷ []
        else out)
      accts

-- `Networks`.
unfoldable pub networks : Person → List String
unfolding networks_from
networks p = networks_from [] p.accounts

-- `hasChat`.
abbrev pub has_chat : String → List ChatRef → Bool
has_chat id refs = any (λ (r : ChatRef). r.id == id) refs

abbrev pub add_chat : ChatRef → List ChatRef → List ChatRef
add_chat ref refs =
    if not (ref.id == "") && not (has_chat ref.id refs) then refs ++ ref ∷ [] else refs

-- The loop of `addAccount`: the entry of the account is kept, or given its user.
unfoldable pub add_account : AccountRef → List AccountRef → List AccountRef
add_account acct [] = acct ∷ []
add_account acct (a ∷ accts) =
    let rest = add_account acct accts in
    if not (a.account_id == acct.account_id)
    then a ∷ rest
    else if a.user_id == acct.user_id
    then a ∷ accts
    else if a.user_id == ""
    then record a { user_id = acct.user_id } ∷ accts
    else if acct.user_id == ""
    then a ∷ accts
    else a ∷ rest

module _ ⦃platform : Platform⦄ where
  -- `Normalize`.
  unfoldable pub normalize : String → String
  normalize s = platform.strip_marks (platform.lower (trim_space s))

  -- `appendUnique`.
  unfoldable pub append_unique : List String → List String → List String
  append_unique dst [] = dst
  append_unique dst (v ∷ vs) =
      append_unique
        (if v == "" || any (λ have. platform.equal_fold have v) dst then dst else dst ++ v ∷ []) vs

  -- `containsNormalized`.
  abbrev pub contains_normalized : List String → String → Bool
  contains_normalized names v = any (λ have. normalize have == normalize v) names

  -- A name that is not among the others is added to them.
  abbrev add_alt_name : String → Person → Person
  add_alt_name name p =
      if contains_normalized p.alt_names name
      then p
      else record p { alt_names = p.alt_names ++ name ∷ [] }

  -- The switch of `absorbFields` on the name.
  unfoldable pub absorb_name : String → Person → Person
  absorb_name name p =
      if p.name == ""
      then record p { name = name }
      else if name == "" || normalize name == normalize p.name
      then p
      else if is_handle_like p.name && not (is_handle_like name)
      then add_alt_name p.name (record p { name = name })
      else add_alt_name name p

  -- `absorbFields`.
  unfoldable pub absorb_fields : String → String → String → String → AccountRef → Person → Person
  absorb_fields name username phone email acct p =
      let p' = absorb_name name p in
      record p' {
        usernames = append_unique p'.usernames (username ∷ []);
        phones = append_unique p'.phones (phone ∷ []);
        emails = append_unique p'.emails (email ∷ []);
        accounts = if acct.account_id == "" then p'.accounts else add_account acct p'.accounts;
      }

  abbrev absorb_names : List String → Person → Person
  absorb_names [] p = p
  absorb_names (n ∷ ns) p = absorb_names ns (absorb_name n p)

  abbrev add_accounts : List AccountRef → List AccountRef → List AccountRef
  add_accounts [] accts = accts
  add_accounts (a ∷ more) accts = add_accounts more (add_account a accts)

  -- A chat without an ID is added too, once.
  abbrev add_chats : List ChatRef → List ChatRef → List ChatRef
  add_chats [] refs = refs
  add_chats (r ∷ more) refs = add_chats more (if has_chat r.id refs then refs else refs ++ r ∷ [])

  abbrev pub latest : ℕ → ℕ → ℕ
  latest a b = if ltb b a then a else b

  -- `absorb`.
  unfoldable pub absorb : Person → Person → Person
  absorb dst src =
      let p = absorb_names (src.name ∷ src.alt_names) dst in
      record p {
        usernames = append_unique p.usernames src.usernames;
        phones = append_unique p.phones src.phones;
        emails = append_unique p.emails src.emails;
        accounts = add_accounts src.accounts p.accounts;
        chats = add_chats src.chats p.chats;
        last_active = latest src.last_active p.last_active;
      }
