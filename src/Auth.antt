-- ===== src/Auth.antt =====
-- mvirt-cplane/src/auth.rs: what a caller may do, and the check of an API key. The hash is that of the
-- crate `blake3` and the time that of the machine: both are arguments. The `store` that the code
-- asks answers from the tables of this replica.
pub mod Keys
pub mod Roles
use mvirt.Prelude.{
  ℕ, ◌-◌, ◌+◌, ◌*◌, String, Bool, true, false, Option, none, some, List, [], ◌∷◌, ◌==◌, ◌&&◌, ◌||◌,
  any, is_some, not, if◌then◌else◌, leb, nat_eq, length, as_bytes, str_lt, strip_prefix, split_once,
}
use mvirt.Redb.{Redb}
use mvirt.Resource.Account.{AccountData, MembershipData, MembershipScope, Role, ApiKeyData}
use mvirt.State.{Tables}
use mvirt.Apply.Account.{is_platform_admin, role_eq}
use mvirt.Query.Account.{get_api_key, get_account, list_memberships_for_account}

pub record AuthClaims : Type 0 where
  pub sub : String
  pub iss : String
  pub exp : ℕ
  pub iat : Option ℕ
  pub email : Option String
  pub name : Option String
  pub given_name : Option String
  pub family_name : Option String
  pub preferred_username : Option String

pub record AuthContext : Type 0 where
  pub claims : AuthClaims
  pub account : AccountData
  pub memberships : List MembershipData

-- `matches!(&m.scope, MembershipScope::Org { org_slug: s } if s == org_slug)`, and for projects.
abbrev pub is_org : String → MembershipScope → Bool
is_org slug MembershipScope.platform = false
is_org slug (MembershipScope.org s) = s == slug
is_org slug (MembershipScope.project s) = false

abbrev pub is_project : String → MembershipScope → Bool
is_project slug MembershipScope.platform = false
is_project slug (MembershipScope.org s) = false
is_project slug (MembershipScope.project s) = s == slug

unfoldable pub context_is_platform_admin : AuthContext → Bool
context_is_platform_admin ctx = any is_platform_admin ctx.memberships

unfoldable pub is_org_admin : AuthContext → String → Bool
is_org_admin ctx org_slug =
    if context_is_platform_admin ctx
    then true
    else any (λ m. role_eq m.role Role.org_admin && is_org org_slug m.scope) ctx.memberships

unfoldable pub is_parent_admin : AuthContext → Option String → Bool
is_parent_admin ctx none = false
is_parent_admin ctx (some org) = is_org_admin ctx org

unfoldable pub is_project_admin : AuthContext → String → Option String → Bool
is_project_admin ctx project_slug project_org_slug =
    if context_is_platform_admin ctx
    then true
    else if is_parent_admin ctx project_org_slug
    then true
    else any (λ m. role_eq m.role Role.project_admin && is_project project_slug m.scope)
        ctx.memberships

unfoldable pub hex_nybble : ℕ → Option ℕ
hex_nybble b =
    if leb 48 b && leb b 57
    then some (b - 48)
    else if leb 97 b && leb b 102
    then some (b - 97 + 10)
    else if leb 65 b && leb b 70
    then some (b - 65 + 10)
    else none

-- One byte in front of those that follow.
abbrev pub hex_byte_of : Option ℕ → Option ℕ → Option (List ℕ) → Option (List ℕ)
hex_byte_of (some hi) (some lo) (some rest) = some ((hi * 16 + lo) ∷ rest)
hex_byte_of _ _ _ = none

unfoldable pub hex_pairs : List ℕ → Option (List ℕ)
hex_pairs [] = some []
hex_pairs (hi ∷ []) = none
hex_pairs (hi ∷ lo ∷ rest) = hex_byte_of (hex_nybble hi) (hex_nybble lo) (hex_pairs rest)

-- A hash has 32 bytes.
unfoldable pub hex_to_array : String → Option (List ℕ)
hex_to_array s = if nat_eq (length (as_bytes s)) 64 then hex_pairs (as_bytes s) else none

-- Equality of hashes.
unfoldable pub hash_eq : List ℕ → List ℕ → Bool
hash_eq [] [] = true
hash_eq (a ∷ as_) (b ∷ bs) = nat_eq a b && hash_eq as_ bs
hash_eq _ _ = false

pub data Authentication (A : Type 0) : Type 0 where
  ok : A → Authentication A
  err : String → Authentication A

infixl 5 ◌>>=◌ ◌>>◌
abbrev pub ◌>>=◌ : {A B : Type 0} → Authentication A → (A → Authentication B) → Authentication B
ok a >>= f = f a
err e >>= f = err e

abbrev pub ◌>>◌ : {B : Type 0} → Authentication (Unit {0}) → Authentication B → Authentication B
m >> k = m >>= λ _. k

-- `found.ok_or(reason)?`, and `if test { return Err(reason) }`.
abbrev pub ok_or : {A : Type 0} → Option A → String → Authentication A
ok_or none reason = err reason
ok_or (some a) reason = ok a

abbrev pub refuse_if : Bool → String → Authentication (Unit {0})
refuse_if true reason = err reason
refuse_if false reason = ok tt

abbrev pub is_expired : String → Option String → Bool
is_expired now none = false
is_expired now (some exp) = str_lt exp now

abbrev pub service_claims : AccountData → AuthClaims
service_claims account = record {
  sub = account.id;
  iss = "mvirt:service-account";
  exp = 0;
  iat = none;
  email = account.email;
  name = account.display_name;
  given_name = none;
  family_name = none;
  preferred_username = account.display_name;
}

-- The key id and the secret of `mvirt_sa_<id>.<secret>`. 46 is the code of the point.
unfoldable pub parse_token : String → Authentication (String × String)
parse_token token = do
  rest ← ok_or (strip_prefix "mvirt_sa_" token) "bad prefix"
  parts ← ok_or (split_once 46 rest) "missing secret segment"
  refuse_if (parts.0 == "" || parts.1 == "") "empty id or secret"
  ok parts

module _ ⦃redb : Redb⦄ (blake3 : List ℕ → List ℕ) (now : String) (db : Tables) where
  unfoldable pub check_key : String → String → Authentication AuthContext
  check_key id secret = do
    api_key ← ok_or (get_api_key db id) "unknown key id"
    refuse_if (is_some api_key.revoked_at) "key revoked"
    refuse_if (is_expired now api_key.expires_at) "key expired"
    stored ← ok_or (hex_to_array api_key.hash_hex) "corrupt stored hash"
    refuse_if (not (hash_eq (blake3 (as_bytes secret)) stored)) "secret mismatch"
    account ← ok_or (get_account db api_key.account_id) "orphan key (account gone)"
    ok (record {
      claims = service_claims account;
      account = account;
      memberships = list_memberships_for_account db account.id;
    })

  unfoldable pub authenticate_static_api_key : String → Authentication AuthContext
  authenticate_static_api_key token = do parts ← parse_token token; check_key parts.0 parts.1
