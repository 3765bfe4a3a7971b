-- ===== src/Store/Account.antt =====
-- mvirt-cplane/src/store/raft_store.rs: the methods of the store for accounts and memberships.
use mvirt.Prelude.{String, Bool, Option, List, [], ◌∷◌, ◌<>◌}
use mvirt.Redb.{Redb}
use mvirt.Lru.{Lru}
use mvirt.Query
use mvirt.Command.{Command}
use mvirt.Resource.Account.{AccountData, MembershipScope, MembershipData}
use mvirt.Store.Error.StoreError.{not_found, conflict, validation}
use mvirt.Store.Request.{EnsureAccountRequest, CreateAccountByEmailRequest, CreateMembershipRequest}
use mvirt.Store.Raft.{Raft}
use mvirt.Store.Call.{Fresh, Store, read, send, reply}
use mvirt.Store.Answer.{as_account, as_deleted, as_granted, as_membership}

unfoldable pub ensure_account_from_oidc_command : Fresh → EnsureAccountRequest → Command
ensure_account_from_oidc_command f req = Command.ensure_account_from_oidc (record {
  request_id = f.request_id;
  timestamp = f.now;
  new_id = "acc_" <> f.simple;
  iss = req.iss;
  sub = req.sub;
  email = req.email;
  display_name = req.display_name;
})

unfoldable pub create_account_by_email_command : Fresh → CreateAccountByEmailRequest → Command
create_account_by_email_command f req = Command.create_account_by_email (record {
  request_id = f.request_id;
  timestamp = f.now;
  id = "acc_" <> f.simple;
  email = req.email;
  display_name = req.display_name;
})

unfoldable pub create_membership_command : Fresh → CreateMembershipRequest → Command
create_membership_command f req = Command.create_membership (record {
  request_id = f.request_id;
  timestamp = f.now;
  id = "mbr_" <> f.simple;
  account_id = req.account_id;
  scope = req.scope;
  role = req.role;
  created_by_account = req.created_by_account;
})

unfoldable pub bootstrap_initial_platform_admin_command : Fresh → String → Command
bootstrap_initial_platform_admin_command f account_id =
    Command.bootstrap_initial_platform_admin (record {
      request_id = f.request_id;
      timestamp = f.now;
      id = "mbr_" <> f.simple;
      account_id = account_id;
    })

unfoldable pub delete_membership_command : Fresh → String → Command
delete_membership_command f id =
    Command.delete_membership (record { request_id = f.request_id; id = id })

module _ ⦃redb : Redb⦄ ⦃lru : Lru⦄ ⦃raft : Raft⦄ where
  unfoldable pub ensure_account_from_oidc : Fresh → EnsureAccountRequest → Store AccountData
  ensure_account_from_oidc f req =
      send (ensure_account_from_oidc_command f req) (reply as_account ([]))

  unfoldable pub create_account_by_email : Fresh → CreateAccountByEmailRequest → Store AccountData
  create_account_by_email f req =
      send (create_account_by_email_command f req)
        (reply as_account ((400, validation) ∷ (409, conflict) ∷ []))

  unfoldable pub get_account : String → Store (Option AccountData)
  unfolding read
  get_account id = read (λ db. Query.Account.get_account db id)

  unfoldable pub get_account_by_oidc : String → String → Store (Option AccountData)
  unfolding read
  get_account_by_oidc iss sub = read (λ db. Query.Account.get_account_by_oidc db iss sub)

  unfoldable pub list_accounts : Store (List AccountData)
  unfolding read
  list_accounts = read (λ db. Query.Account.list_accounts db)

  unfoldable pub create_membership : Fresh → CreateMembershipRequest → Store MembershipData
  create_membership f req =
      send (create_membership_command f req)
        (reply as_membership ((404, not_found) ∷ (409, conflict) ∷ []))

  unfoldable pub delete_membership : Fresh → String → Store (Unit {0})
  delete_membership f id =
      send (delete_membership_command f id) (reply as_deleted ((404, not_found) ∷ []))

  unfoldable pub list_memberships_for_account : String → Store (List MembershipData)
  unfolding read
  list_memberships_for_account account_id =
      read (λ db. Query.Account.list_memberships_for_account db account_id)

  unfoldable pub list_memberships_at_scope : MembershipScope → Store (List MembershipData)
  unfolding read
  list_memberships_at_scope scope = read (λ db. Query.Account.list_memberships_at_scope db scope)

  unfoldable pub bootstrap_initial_platform_admin : Fresh → String → Store (Unit {0})
  bootstrap_initial_platform_admin f account_id =
      send (bootstrap_initial_platform_admin_command f account_id)
        (reply as_granted ((404, not_found) ∷ []))

  unfoldable pub has_platform_admin : Store Bool
  unfolding read
  has_platform_admin = read (λ db. Query.Account.has_platform_admin db)
