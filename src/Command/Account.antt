-- ===== src/Command/Account.antt =====
-- mvirt-cplane/src/command.rs: what the account commands carry.
use mvirt.Prelude.{String, Option}
use mvirt.Resource.Account.{MembershipScope, Role}

pub record CreateAccountByEmail : Type 0 where
  pub request_id : String
  pub timestamp : String
  pub id : String
  pub email : String
  pub display_name : Option String

pub record EnsureAccountFromOidc : Type 0 where
  pub request_id : String
  pub timestamp : String
  pub new_id : String
  pub iss : String
  pub sub : String
  pub email : Option String
  pub display_name : Option String

pub record CreateMembership : Type 0 where
  pub request_id : String
  pub timestamp : String
  pub id : String
  pub account_id : String
  pub scope : MembershipScope
  pub role : Role
  pub created_by_account : String

pub record DeleteMembership : Type 0 where
  pub request_id : String
  pub id : String

pub record BootstrapInitialPlatformAdmin : Type 0 where
  pub request_id : String
  pub timestamp : String
  pub id : String
  pub account_id : String

pub record CreateServiceAccount : Type 0 where
  pub request_id : String
  pub timestamp : String
  pub account_id : String
  pub membership_id : String
  pub project_slug : String
  pub name : String
  pub description : Option String
  pub created_by_account : String

pub record DeleteServiceAccount : Type 0 where
  pub request_id : String
  pub timestamp : String
  pub account_id : String

pub record CreateStaticApiKey : Type 0 where
  pub request_id : String
  pub timestamp : String
  pub id : String
  pub account_id : String
  pub hash_hex : String
  pub display_prefix : String
  pub description : Option String
  pub expires_at : Option String
  pub created_by_account : String

pub record RevokeStaticApiKey : Type 0 where
  pub request_id : String
  pub timestamp : String
  pub id : String
