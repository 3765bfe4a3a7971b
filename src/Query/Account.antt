-- ===== src/Query/Account.antt =====
-- mvirt-cplane/src/state.rs: the queries of `ApiState` over accounts, memberships and API keys.
use mvirt.Prelude.{String, Bool, Option, some, List, ◌==◌, ◌&&◌, any, find, keep, opt_eq}
use mvirt.Redb.{Redb}
use mvirt.Redb.Txn.{read_get, read_list}
use mvirt.Resource.Account.{AccountData, MembershipData, MembershipScope, ApiKeyData}
use mvirt.State.{Tables}
use mvirt.Apply.Account.{is_linked_to, is_platform_admin, is_service_account, scope_eq}

module _ ⦃redb : Redb⦄ (db : Tables) where
  unfoldable pub get_account : String → Option AccountData
  get_account id = read_get db.accounts id

  unfoldable pub get_account_by_oidc : String → String → Option AccountData
  get_account_by_oidc iss sub = find (λ x. is_linked_to iss sub x) (read_list db.accounts)

  unfoldable pub list_accounts : List AccountData
  list_accounts = read_list db.accounts

  unfoldable pub get_membership : String → Option MembershipData
  get_membership id = read_get db.memberships id

  unfoldable pub list_memberships : List MembershipData
  list_memberships = read_list db.memberships

  unfoldable pub list_memberships_for_account : String → List MembershipData
  list_memberships_for_account account_id =
      keep (λ x. x.account_id == account_id) (read_list db.memberships)

  unfoldable pub list_memberships_at_scope : MembershipScope → List MembershipData
  list_memberships_at_scope scope = keep (λ x. scope_eq x.scope scope) (read_list db.memberships)

  unfoldable pub has_platform_admin : Bool
  has_platform_admin = any is_platform_admin (read_list db.memberships)

  unfoldable pub list_service_accounts_in_project : String → List AccountData
  list_service_accounts_in_project project_slug =
      keep (λ x. is_service_account x.kind && opt_eq x.project_slug (some project_slug))
        (read_list db.accounts)

  unfoldable pub get_api_key : String → Option ApiKeyData
  get_api_key id = read_get db.api_keys id

  unfoldable pub list_api_keys_for_account : String → List ApiKeyData
  list_api_keys_for_account account_id =
      keep (λ x. x.account_id == account_id) (read_list db.api_keys)
