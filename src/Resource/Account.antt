-- ===== src/Resource/Account.antt =====
-- mvirt-cplane/src/command.rs: the rows of accounts, API keys and memberships.
use mvirt.Prelude.{String, Option}

pub data AccountKind : Type 0 where
  user service_account : AccountKind

pub record AccountData : Type 0 where
  pub id : String
  pub kind : AccountKind
  pub external_iss : Option String
  pub external_sub : Option String
  pub email : Option String
  pub display_name : Option String
  pub project_slug : Option String
  pub description : Option String
  pub created_at : String
  pub updated_at : String

pub record ApiKeyData : Type 0 where
  pub id : String
  pub account_id : String
  pub hash_hex : String
  pub display_prefix : String
  pub description : Option String
  pub expires_at : Option String
  pub last_used_at : Option String
  pub revoked_at : Option String
  pub created_at : String
  pub created_by_account : String

pub data MembershipScope : Type 0 where
  platform : MembershipScope
  org : String → MembershipScope
  project : String → MembershipScope

pub data Role : Type 0 where
  platform_admin org_admin project_admin : Role

pub record MembershipData : Type 0 where
  pub id : String
  pub account_id : String
  pub scope : MembershipScope
  pub role : Role
  pub created_by_account : String
  pub created_at : String
