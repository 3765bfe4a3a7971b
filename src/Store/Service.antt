-- ===== src/Store/Service.antt =====
-- mvirt-cplane/src/store/raft_store.rs: the methods of the store for service accounts and API keys.
use mvirt.Prelude.{String, Option, List, [], ◌∷◌, ◌<>◌}
use mvirt.Redb.{Redb}
use mvirt.Lru.{Lru}
use mvirt.Query
use mvirt.Command.{Command}
use mvirt.Resource.Account.{AccountData, ApiKeyData}
use mvirt.Store.Error.StoreError.{not_found, conflict, validation}
use mvirt.Store.Request.{CreateServiceAccountRequest, CreateStaticApiKeyRequest}
use mvirt.Store.Raft.{Raft}
use mvirt.Store.Call.{Fresh, Store, read, send, reply}
use mvirt.Store.Answer.{as_account, as_api_key, as_deleted}

unfoldable pub create_service_account_command : Fresh → CreateServiceAccountRequest → Command
create_service_account_command f req = Command.create_service_account (record {
  request_id = f.request_id;
  timestamp = f.now;
  account_id = "acc_" <> f.simple;
  membership_id = "mbr_" <> f.simple_membership;
  project_slug = req.project_slug;
  name = req.name;
  description = req.description;
  created_by_account = req.created_by_account;
})

unfoldable pub create_static_api_key_command : Fresh → CreateStaticApiKeyRequest → Command
create_static_api_key_command f req = Command.create_static_api_key (record {
  request_id = f.request_id;
  timestamp = f.now;
  id = "key_" <> f.simple;
  account_id = req.account_id;
  hash_hex = req.hash_hex;
  display_prefix = req.display_prefix;
  description = req.description;
  expires_at = req.expires_at;
  created_by_account = req.created_by_account;
})

unfoldable pub delete_service_account_command : Fresh → String → Command
delete_service_account_command f account_id =
    Command.delete_service_account
      (record { request_id = f.request_id; timestamp = f.now; account_id = account_id })

unfoldable pub revoke_static_api_key_command : Fresh → String → Command
revoke_static_api_key_command f id =
    Command.revoke_static_api_key (record { request_id = f.request_id; timestamp = f.now; id = id })

module _ ⦃redb : Redb⦄ ⦃lru : Lru⦄ ⦃raft : Raft⦄ where
  unfoldable pub create_service_account : Fresh → CreateServiceAccountRequest → Store AccountData
  create_service_account f req =
      send (create_service_account_command f req)
        (reply as_account ((404, not_found) ∷ (409, conflict) ∷ []))

  unfoldable pub delete_service_account : Fresh → String → Store (Unit {0})
  delete_service_account f account_id =
      send (delete_service_account_command f account_id)
        (reply as_deleted ((404, not_found) ∷ (400, validation) ∷ []))

  unfoldable pub list_service_accounts_in_project : String → Store (List AccountData)
  unfolding read
  list_service_accounts_in_project project_slug =
      read (λ db. Query.Account.list_service_accounts_in_project db project_slug)

  unfoldable pub create_static_api_key : Fresh → CreateStaticApiKeyRequest → Store ApiKeyData
  create_static_api_key f req =
      send (create_static_api_key_command f req)
        (reply as_api_key ((404, not_found) ∷ (400, validation) ∷ (409, conflict) ∷ []))

  unfoldable pub revoke_static_api_key : Fresh → String → Store ApiKeyData
  revoke_static_api_key f id =
      send (revoke_static_api_key_command f id) (reply as_api_key ((404, not_found) ∷ []))

  unfoldable pub get_api_key : String → Store (Option ApiKeyData)
  unfolding read
  get_api_key id = read (λ db. Query.Account.get_api_key db id)

  unfoldable pub list_api_keys_for_account : String → Store (List ApiKeyData)
  unfolding read
  list_api_keys_for_account account_id =
      read (λ db. Query.Account.list_api_keys_for_account db account_id)
