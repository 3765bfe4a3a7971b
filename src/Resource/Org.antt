-- ===== src/Resource/Org.antt =====
-- mvirt-cplane/src/command.rs: the rows of organizations, projects and clusters.
use mvirt.Prelude.{String, Option, List}

pub record OrgContact : Type 0 where
  pub legal_name : Option String
  pub street_address : Option String
  pub postal_code : Option String
  pub city : Option String
  pub country : Option String
  pub technical_contact_email : Option String
  pub billing_contact_email : Option String
  pub vat_id : Option String

pub record OrgData : Type 0 where
  pub slug : String
  pub name : String
  pub contact : OrgContact
  pub created_at : String
  pub updated_at : String

pub record ProjectData : Type 0 where
  pub slug : String
  pub org_slug : String
  pub name : String
  pub description : Option String
  pub created_at : String
  pub updated_at : String

pub record ClusterData : Type 0 where
  pub slug : String
  pub org_slug : String
  pub name : String
  pub description : Option String
  pub location : Option String
  pub node_ids : List String
  pub created_at : String
  pub updated_at : String
