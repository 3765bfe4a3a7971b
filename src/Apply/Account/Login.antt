-- ===== src/Apply/Account/Login.antt =====
-- mvirt-cplane/src/state.rs: the handlers of invitations and logins.
use mvirt.Prelude.{
  String, ◌<>◌, Bool, Option, none, some, List, [], ◌==◌, ◌&&◌, ◌||◌, any, find, is_some, opt_eq,
  not, if◌then◌else◌,
}
use mvirt.Redb.{Redb}
use mvirt.Redb.Txn.{Table, txn_list, txn_put}
use mvirt.Resource.Account.{AccountData, AccountKind}
use mvirt.Command.Account.{CreateAccountByEmail, EnsureAccountFromOidc}
use mvirt.Response.{Response}
use mvirt.State.{Tables}
use mvirt.Replica.{Replica}
use mvirt.Apply.Outcome.{Handler, done, ◌>>◌, return_if}

-- `a.email.as_deref().map(|e| e.to_lowercase()) == Some(email)`.
abbrev pub lowered : Replica → Option String → Option String
lowered replica none = none
lowered replica (some e) = some (replica.to_lowercase e)

abbrev pub has_email : Replica → String → AccountData → Bool
has_email replica email a = opt_eq (lowered replica a.email) (some email)

abbrev pub is_linked_to : String → String → AccountData → Bool
is_linked_to iss sub a = opt_eq a.external_iss (some iss) && opt_eq a.external_sub (some sub)

-- An account that was invited by email and has not logged in yet.
abbrev pub find_invited : Replica → List AccountData → Option String → Option AccountData
find_invited replica all none = none
find_invited replica all (some e) =
    find
      (λ a.
        not (is_some a.external_iss)
        && not (is_some a.external_sub)
        && has_email replica (replica.to_lowercase e) a)
      all

-- `if new.is_some() && old != new { old = new; changed = true }`.
abbrev pub differs : Option String → Option String → Bool
differs old new = is_some new && not (opt_eq old new)

abbrev pub refreshed : Option String → Option String → Option String
refreshed old new = if differs old new then new else old

module _ ⦃redb : Redb⦄ where
  -- The three ways of a login: a known identity, an invited account, a new account.
  unfoldable pub refresh_account :
      Table AccountData → AccountData → EnsureAccountFromOidc → Table AccountData × AccountData
  refresh_account t a c =
      let touched = record a {
        email = refreshed a.email c.email;
        display_name = refreshed a.display_name c.display_name;
        updated_at = c.timestamp;
      } in
      if differs a.email c.email || differs a.display_name c.display_name
      then (txn_put t a.id touched, touched)
      else (t, a)

  unfoldable pub link_account :
      Table AccountData → AccountData → EnsureAccountFromOidc → Table AccountData × AccountData
  link_account t a c =
      let linked = record a {
        external_iss = some c.iss;
        external_sub = some c.sub;
        email = c.email;
        display_name = if is_some c.display_name then c.display_name else a.display_name;
        updated_at = c.timestamp;
      } in
      (txn_put t a.id linked, linked)

  unfoldable pub add_account :
      Table AccountData → EnsureAccountFromOidc → Table AccountData × AccountData
  add_account t c =
      let added : AccountData = record {
        id = c.new_id;
        kind = AccountKind.user;
        external_iss = some c.iss;
        external_sub = some c.sub;
        email = c.email;
        display_name = c.display_name;
        project_slug = none;
        description = none;
        created_at = c.timestamp;
        updated_at = c.timestamp;
      } in
      (txn_put t c.new_id added, added)

  unfoldable pub login :
      Table AccountData
      → Option AccountData
      → Option AccountData
      → EnsureAccountFromOidc
      → Table AccountData × AccountData
  login t (some known) invited c = refresh_account t known c
  login t none (some invited) c = link_account t invited c
  login t none none c = add_account t c

module _ ⦃redb : Redb⦄ (db : Tables) where
  unfoldable pub apply_create_account_by_email : Replica → CreateAccountByEmail → Handler
  apply_create_account_by_email replica c = do
    let normalized = replica.to_lowercase (replica.trim c.email)
    return_if (normalized == "") (Response.error 400 "email is required")
    return_if (any (has_email replica normalized) (txn_list db.accounts))
        (Response.error 409 ("Account with email '" <> normalized <> "' already exists"))
    let acc : AccountData = record {
      id = c.id;
      kind = AccountKind.user;
      external_iss = none;
      external_sub = none;
      email = some normalized;
      display_name = c.display_name;
      project_slug = none;
      description = none;
      created_at = c.timestamp;
      updated_at = c.timestamp;
    }
    done (record db { accounts = txn_put db.accounts c.id acc }, Response.account acc, [])

  unfoldable pub apply_ensure_account_from_oidc : Replica → EnsureAccountFromOidc → Handler
  apply_ensure_account_from_oidc replica c = do
    let all = txn_list db.accounts
    let (accounts, account) =
        login db.accounts (find (is_linked_to c.iss c.sub) all) (find_invited replica all c.email) c
    done (record db { accounts = accounts }, Response.account account, [])
