-- ===== src/Command/Vm.antt =====
-- mvirt-cplane/src/command.rs: what the vm commands carry.
use mvirt.Prelude.{String}
use mvirt.Resource.Vm.{VmDesiredState, VmSpec, VmStatus}

pub record CreateVm : Type 0 where
  pub request_id : String
  pub id : String
  pub timestamp : String
  pub spec : VmSpec

pub record UpdateVmSpec : Type 0 where
  pub request_id : String
  pub id : String
  pub timestamp : String
  pub desired_state : VmDesiredState

pub record UpdateVmStatus : Type 0 where
  pub request_id : String
  pub id : String
  pub timestamp : String
  pub status : VmStatus

pub record DeleteVm : Type 0 where
  pub request_id : String
  pub id : String
