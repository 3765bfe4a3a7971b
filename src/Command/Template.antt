-- ===== src/Command/Template.antt =====
-- mvirt-cplane/src/command.rs: what the template commands carry.
use mvirt.Prelude.{ℕ, String, Option}
use mvirt.Resource.Storage.{TemplatePhase}

pub record CreateTemplate : Type 0 where
  pub request_id : String
  pub id : String
  pub timestamp : String
  pub project_slug : String
  pub node_id : String
  pub name : String
  pub size_bytes : ℕ
  pub source_url : Option String
  pub total_bytes : ℕ

pub record UpdateTemplateStatus : Type 0 where
  pub request_id : String
  pub id : String
  pub timestamp : String
  pub phase : TemplatePhase
  pub bytes_written : ℕ
  pub size_bytes : ℕ
  pub error : Option String
