-- ===== src/Command/Volume.antt =====
-- mvirt-cplane/src/command.rs: what the volume commands carry.
use mvirt.Prelude.{ℕ, String, Option}
use mvirt.Resource.Storage.{VolumePhase}

pub record CreateVolume : Type 0 where
  pub request_id : String
  pub id : String
  pub timestamp : String
  pub project_slug : String
  pub node_id : String
  pub name : String
  pub size_bytes : ℕ
  pub template_id : Option String

pub record DeleteVolume : Type 0 where
  pub request_id : String
  pub id : String

pub record UpdateVolumeStatus : Type 0 where
  pub request_id : String
  pub id : String
  pub timestamp : String
  pub phase : VolumePhase
  pub path : Option String
  pub used_bytes : ℕ
  pub error : Option String

pub record ResizeVolume : Type 0 where
  pub request_id : String
  pub id : String
  pub timestamp : String
  pub size_bytes : ℕ

pub record CreateSnapshot : Type 0 where
  pub request_id : String
  pub id : String
  pub timestamp : String
  pub volume_id : String
  pub name : String
