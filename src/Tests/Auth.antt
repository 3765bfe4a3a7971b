-- ===== src/Tests/Auth.antt =====
-- A service account with one API key.
use mvirt.Prelude.{
  str_lt, ℕ, ◌≡◌, ◌≢◌, refl, none, some, List, [], ◌∷◌, any, keep, as_bytes, strip_prefix,
  split_once,
}
use mvirt.Redb.{lookup, without}
use mvirt.Redb.Memory.{memory}
use mvirt.Redb.Keyed.{IsKeyed, put-IsKeyed}
use mvirt.Redb.Txn.{txn_get, txn_put, read_get, read_list}
use mvirt.Redb.Txn.Laws.{txn_get-txn_put_self}
use mvirt.Resource.Account.{
  AccountData, AccountKind, ApiKeyData, MembershipData, MembershipScope, Role,
}
use mvirt.Command.Account.{RevokeStaticApiKey, DeleteServiceAccount}
use mvirt.State.{Tables, init_tables}
use mvirt.Apply.Ensures.{Ensures}
use mvirt.Apply.Account.{apply_revoke_static_api_key, apply_delete_service_account}
use mvirt.Query.Account.{get_api_key, get_account, list_memberships_for_account}
use mvirt.Invariant.Reach.{new-IsKeyed}
use mvirt.Auth.{
  AuthContext, ok, parse_token, check_key, authenticate_static_api_key, service_claims,
  hex_to_array, hex_pairs, hex_nybble, hash_eq, is_project_admin,
}
use mvirt.Auth.Keys.{
  IsGranted, authenticate_static_api_key_lem, revoke_static_api_key_lem, delete_service_account_lem,
}
use mvirt.Auth.Roles.{is_project_admin-any, grants_project}
use mvirt.Tests.Sample.{test_redb}

-- Thirty-two times the byte 0xab.
abbrev digest : List ℕ
digest =
    171 ∷ 171 ∷ 171 ∷ 171 ∷ 171 ∷ 171 ∷ 171 ∷ 171 ∷ 171 ∷ 171 ∷ 171 ∷ 171 ∷ 171 ∷ 171 ∷ 171 ∷ 171
    ∷ 171 ∷ 171 ∷ 171 ∷ 171 ∷ 171 ∷ 171 ∷ 171 ∷ 171 ∷ 171 ∷ 171 ∷ 171 ∷ 171 ∷ 171 ∷ 171 ∷ 171 ∷ 171
    ∷ []

abbrev blake3 : List ℕ → List ℕ
blake3 bytes = digest

abbrev robot : AccountData
robot = record {
  id = "sa";
  kind = AccountKind.service_account;
  external_iss = none;
  external_sub = none;
  email = none;
  display_name = some "ci";
  project_slug = some "web";
  description = none;
  created_at = "t";
  updated_at = "t";
}

abbrev key : ApiKeyData
key = record {
  id = "k1";
  account_id = "sa";
  hash_hex = "ababABababababababababababababababababababababababababababababab";
  display_prefix = "mvirt_sa_k1";
  description = none;
  expires_at = some "2027";
  last_used_at = none;
  revoked_at = none;
  created_at = "t";
  created_by_account = "alice";
}

abbrev grant : MembershipData
grant = record {
  id = "m";
  account_id = "sa";
  scope = MembershipScope.project "web";
  role = Role.project_admin;
  created_by_account = "alice";
  created_at = "t";
}

abbrev key_db : Tables
key_db = record init_tables {
  accounts = txn_put init_tables.accounts "sa" robot;
  api_keys = txn_put init_tables.api_keys "k1" key;
  memberships = txn_put init_tables.memberships "m" grant;
}

abbrev context : AuthContext
context = record { claims = service_claims robot; account = robot; memberships = grant ∷ [] }

parsed : parse_token "mvirt_sa_k1.s3cret" ≡ ok ("k1", "s3cret")
unfolding parse_token strip_prefix split_once
parsed = refl

accepted : authenticate_static_api_key blake3 "2026" key_db "mvirt_sa_k1.s3cret" ≡ ok context
unfolding authenticate_static_api_key parse_token strip_prefix split_once check_key get_api_key
    get_account list_memberships_for_account hex_to_array hex_pairs hex_nybble hash_eq as_bytes
    str_lt keep read_get read_list txn_put init_tables memory lookup without
accepted = refl

authenticate_static_api_key_lem_example : IsGranted blake3 "2026" key_db "k1" "s3cret" context
authenticate_static_api_key_lem_example =
    authenticate_static_api_key_lem blake3 "2026" key_db "mvirt_sa_k1.s3cret" "k1" "s3cret" context
      parsed accepted

abbrev revoke_key : RevokeStaticApiKey
revoke_key = record { request_id = "r1"; timestamp = "t1"; id = "k1" }

revoke_static_api_key_lem_example :
    Ensures
      (λ a. authenticate_static_api_key blake3 "2026" a.0 "mvirt_sa_k1.s3cret" ≢ ok context)
      (apply_revoke_static_api_key key_db revoke_key)
revoke_static_api_key_lem_example =
    revoke_static_api_key_lem blake3 "2026" key_db revoke_key "mvirt_sa_k1.s3cret" "s3cret" context
      parsed

abbrev delete_robot : DeleteServiceAccount
delete_robot = record { request_id = "r2"; timestamp = "t2"; account_id = "sa" }

keys-IsKeyed : IsKeyed (λ k. k.id) key_db.api_keys
unfolding init_tables
keys-IsKeyed = put-IsKeyed (λ k. k.id) _ "k1" key refl (new-IsKeyed (λ k. k.id))

key_there : txn_get key_db.api_keys "k1" ≡ some key
key_there = txn_get-txn_put_self init_tables.api_keys "k1" "k1" key refl

delete_service_account_lem_example :
    Ensures
      (λ a. authenticate_static_api_key blake3 "2026" a.0 "mvirt_sa_k1.s3cret" ≢ ok context)
      (apply_delete_service_account key_db delete_robot)
delete_service_account_lem_example =
    delete_service_account_lem blake3 "2026" key_db delete_robot "mvirt_sa_k1.s3cret" "k1" "s3cret"
      key context parsed keys-IsKeyed key_there refl

is_project_admin-any_example :
    is_project_admin context "web" (some "acme")
    ≡ any (grants_project "web" (some "acme")) context.memberships
is_project_admin-any_example = is_project_admin-any context "web" (some "acme")
