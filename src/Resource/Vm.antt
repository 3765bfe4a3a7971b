-- ===== src/Resource/Vm.antt =====
-- mvirt-cplane/src/command.rs: the rows of virtual machines.
use mvirt.Prelude.{ℕ, String, Option}

pub data VmDesiredState : Type 0 where
  running stopped : VmDesiredState

pub record VmSpec : Type 0 where
  pub name : String
  pub project_slug : String
  pub node_selector : Option String
  pub cpu_cores : ℕ
  pub memory_mb : ℕ
  pub volume_id : String
  pub nic_id : String
  pub image : String
  pub user_data : Option String
  pub desired_state : VmDesiredState

pub data VmPhase : Type 0 where
  pending scheduled creating running stopping stopped failed : VmPhase

pub record VmStatus : Type 0 where
  pub phase : VmPhase
  pub node_id : Option String
  pub ip_address : Option String
  pub message : Option String

pub record VmData : Type 0 where
  pub id : String
  pub spec : VmSpec
  pub status : VmStatus
  pub created_at : String
  pub updated_at : String
