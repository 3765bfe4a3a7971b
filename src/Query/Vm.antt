-- ===== src/Query/Vm.antt =====
-- mvirt-cplane/src/state.rs: the queries of `ApiState` over virtual machines.
use mvirt.Prelude.{ℕ, String, Bool, true, false, Option, none, some, List, ◌==◌, find, keep, opt_eq}
use mvirt.Redb.{Redb}
use mvirt.Redb.Txn.{read_get, read_list, read_count, read_keys}
use mvirt.Resource.Vm.{VmData, VmPhase}
use mvirt.State.{Tables}

-- `a == b` on phases.
unfoldable pub phase_eq : VmPhase → VmPhase → Bool
phase_eq VmPhase.pending VmPhase.pending = true
phase_eq VmPhase.scheduled VmPhase.scheduled = true
phase_eq VmPhase.creating VmPhase.creating = true
phase_eq VmPhase.running VmPhase.running = true
phase_eq VmPhase.stopping VmPhase.stopping = true
phase_eq VmPhase.stopped VmPhase.stopped = true
phase_eq VmPhase.failed VmPhase.failed = true
phase_eq _ _ = false

module _ ⦃redb : Redb⦄ (db : Tables) where
  unfoldable pub get_vm : String → Option VmData
  get_vm id = read_get db.vms id

  unfoldable pub get_vm_by_name : String → Option VmData
  get_vm_by_name name = find (λ x. x.spec.name == name) (read_list db.vms)

  unfoldable pub list_vms : Option String → List VmData
  list_vms none = read_list db.vms
  list_vms (some id) = keep (λ x. opt_eq x.status.node_id (some id)) (read_list db.vms)

  unfoldable pub list_vms_by_phase : VmPhase → List VmData
  list_vms_by_phase phase = keep (λ x. phase_eq x.status.phase phase) (read_list db.vms)

  unfoldable pub list_vms_by_project : String → List VmData
  list_vms_by_project project_slug =
      keep (λ x. x.spec.project_slug == project_slug) (read_list db.vms)

  unfoldable pub vm_count : ℕ
  vm_count = read_count db.vms

  unfoldable pub vm_ids : List String
  vm_ids = read_keys db.vms
