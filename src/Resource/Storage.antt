-- ===== src/Resource/Storage.antt =====
-- mvirt-cplane/src/command.rs: the rows of volumes, snapshots and templates. `compression_ratio` is a float in the source; the only
-- value that is ever written is 1.0, so it is the whole number here.
use mvirt.Prelude.{ℕ, String, Option, List}

pub data VolumePhase : Type 0 where
  pending creating ready failed : VolumePhase

pub record SnapshotData : Type 0 where
  pub id : String
  pub name : String
  pub created_at : String
  pub used_bytes : ℕ

pub record VolumeSpec : Type 0 where
  pub project_slug : String
  pub node_id : String
  pub name : String
  pub size_bytes : ℕ
  pub template_id : Option String

pub record VolumeStatus : Type 0 where
  pub phase : VolumePhase
  pub path : String
  pub used_bytes : ℕ
  pub compression_ratio : ℕ
  pub snapshots : List SnapshotData
  pub error : Option String

pub record VolumeData : Type 0 where
  pub id : String
  pub spec : VolumeSpec
  pub status : VolumeStatus
  pub created_at : String
  pub updated_at : String

pub data TemplatePhase : Type 0 where
  pending importing ready failed : TemplatePhase

pub record TemplateSpec : Type 0 where
  pub project_slug : String
  pub node_id : String
  pub name : String
  pub source_url : Option String

pub record TemplateStatus : Type 0 where
  pub phase : TemplatePhase
  pub size_bytes : ℕ
  pub bytes_written : ℕ
  pub total_bytes : ℕ
  pub clone_count : ℕ
  pub error : Option String

pub record TemplateData : Type 0 where
  pub id : String
  pub spec : TemplateSpec
  pub status : TemplateStatus
  pub created_at : String
  pub updated_at : String
