-- ===== src/Apply/Account/Service.antt =====
-- mvirt-cplane/src/state.rs: the handlers of service accounts and their API keys.
use mvirt.Prelude.{◌<>◌, none, some, [], ◌==◌, ◌&&◌, any, keep, is_some, opt_eq, not, if◌then◌else◌}
use mvirt.Redb.{Redb}
use mvirt.Redb.Txn.{delete_rows, txn_get, txn_has, txn_list, txn_put, txn_delete}
use mvirt.Resource.Account.{
  AccountData, AccountKind, ApiKeyData, MembershipData, MembershipScope, Role,
}
use mvirt.Command.Account.{
  CreateServiceAccount, DeleteServiceAccount, CreateStaticApiKey, RevokeStaticApiKey,
}
use mvirt.Response.{Response}
use mvirt.State.{Tables}
use mvirt.Apply.Outcome.{Handler, done, ◌>>=◌, ◌>>◌, return_if, some_or}
use mvirt.Apply.Org.{project_not_found}
use package.mvirt.Apply.Account.Member.{account_not_found, is_service_account}

module _ ⦃redb : Redb⦄ (db : Tables) where
  unfoldable pub apply_create_service_account : CreateServiceAccount → Handler
  apply_create_service_account c = do
    return_if (not (txn_has db.projects c.project_slug)) (project_not_found c.project_slug)
    return_if
        (any
          (λ a.
            is_service_account a.kind
            && opt_eq a.project_slug (some c.project_slug)
            && opt_eq a.display_name (some c.name))
          (txn_list db.accounts))
        (Response.error 409 (
          "ServiceAccount '" <> c.name <> "' already exists in project '" <> c.project_slug <> "'"))
    let acc : AccountData = record {
      id = c.account_id;
      kind = AccountKind.service_account;
      external_iss = none;
      external_sub = none;
      email = none;
      display_name = some c.name;
      project_slug = some c.project_slug;
      description = c.description;
      created_at = c.timestamp;
      updated_at = c.timestamp;
    }
    let m : MembershipData = record {
      id = c.membership_id;
      account_id = c.account_id;
      scope = MembershipScope.project c.project_slug;
      role = Role.project_admin;
      created_by_account = c.created_by_account;
      created_at = c.timestamp;
    }
    done (
      record db {
        accounts = txn_put db.accounts c.account_id acc;
        memberships = txn_put db.memberships c.membership_id m;
      },
      Response.account acc,
      [],
    )

  unfoldable pub apply_delete_service_account : DeleteServiceAccount → Handler
  apply_delete_service_account c = do
    acc ← some_or (txn_get db.accounts c.account_id) (account_not_found c.account_id)
    return_if (not (is_service_account acc.kind)) (Response.error 400 "not a ServiceAccount")
    let keys = keep (λ k. k.account_id == c.account_id) (txn_list db.api_keys)
    let mems = keep (λ m. m.account_id == c.account_id) (txn_list db.memberships)
    done (
      record db {
        api_keys = delete_rows (λ k. k.id) db.api_keys keys;
        memberships = delete_rows (λ m. m.id) db.memberships mems;
        accounts = txn_delete db.accounts c.account_id;
      },
      Response.deleted c.account_id,
      [],
    )

  unfoldable pub apply_create_static_api_key : CreateStaticApiKey → Handler
  apply_create_static_api_key c = do
    acc ← some_or (txn_get db.accounts c.account_id) (account_not_found c.account_id)
    return_if (not (is_service_account acc.kind))
        (Response.error 400 "API keys are only valid for ServiceAccounts")
    return_if (txn_has db.api_keys c.id)
        (Response.error 409 ("API key '" <> c.id <> "' already exists"))
    let key : ApiKeyData = record {
      id = c.id;
      account_id = c.account_id;
      hash_hex = c.hash_hex;
      display_prefix = c.display_prefix;
      description = c.description;
      expires_at = c.expires_at;
      last_used_at = none;
      revoked_at = none;
      created_at = c.timestamp;
      created_by_account = c.created_by_account;
    }
    done (record db { api_keys = txn_put db.api_keys c.id key }, Response.api_key key, [])

  unfoldable pub apply_revoke_static_api_key : RevokeStaticApiKey → Handler
  apply_revoke_static_api_key c = do
    key ←
        some_or (txn_get db.api_keys c.id)
          (Response.error 404 ("API key '" <> c.id <> "' not found"))
    let revoked = record key { revoked_at = some c.timestamp }
    if is_some key.revoked_at
        then done (db, Response.api_key key, [])
        else done (
          record db { api_keys = txn_put db.api_keys c.id revoked },
          Response.api_key revoked,
          [],
        )
