-- ===== src/Command/Org.antt =====
-- mvirt-cplane/src/command.rs: what the org commands carry.
use mvirt.Prelude.{String, Option}
use mvirt.Resource.Org.{OrgContact}

pub record CreateOrg : Type 0 where
  pub request_id : String
  pub timestamp : String
  pub slug : String
  pub name : String
  pub contact : OrgContact

pub record UpdateOrg : Type 0 where
  pub request_id : String
  pub slug : String
  pub timestamp : String
  pub name : Option String
  pub contact : Option OrgContact

pub record DeleteOrg : Type 0 where
  pub request_id : String
  pub slug : String

pub record CreateProject : Type 0 where
  pub request_id : String
  pub timestamp : String
  pub org_slug : String
  pub slug : String
  pub name : String
  pub description : Option String

pub record DeleteProject : Type 0 where
  pub request_id : String
  pub slug : String
