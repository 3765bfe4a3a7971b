-- ===== src/Apply/Vm.antt =====
-- mvirt-cplane/src/state.rs: the handlers of the VM commands.
use mvirt.Prelude.{
  String, ◌<>◌, Option, none, some, List, [], ◌∷◌, ◌==◌, ◌&&◌, any, opt_eq, not, if◌then◌else◌,
}
use mvirt.Redb.{Redb}
use mvirt.Redb.Txn.{Table, txn_get, txn_list, txn_put, txn_delete}
use mvirt.Resource.Network.{NicData}
use mvirt.Resource.Vm.{VmData, VmPhase}
use mvirt.Command.Vm.{CreateVm, UpdateVmSpec, UpdateVmStatus, DeleteVm}
use mvirt.Response.{Response, Event}
use mvirt.State.{Tables}
use mvirt.Apply.Outcome.{Outcome, Handler, done, ◌>>=◌, ◌>>◌, return_if, some_or, return_existing}
use mvirt.Apply.Nic.{nic_not_found}

abbrev pub vm_not_found : String → Response
vm_not_found id = Response.error 404 ("VM '" <> id <> "' not found")

abbrev pub new_vm : CreateVm → VmData
new_vm c = record {
  id = c.id;
  spec = c.spec;
  status = record { phase = VmPhase.pending; node_id = none; ip_address = none; message = none };
  created_at = c.timestamp;
  updated_at = c.timestamp;
}

-- The test for a NIC that another VM holds.
unfoldable pub check_free : String → CreateVm → Outcome (Unit {0})
check_free other_vm c = return_if (not (other_vm == c.id)) (
    Response.error 409
      ("NIC '" <> c.spec.nic_id <> "' is already attached to VM '" <> other_vm <> "'"))

unfoldable pub check_nic : Option String → CreateVm → Outcome (Unit {0})
check_nic none c = done tt
check_nic (some other_vm) c = check_free other_vm c

-- The back-link that a deleted VM releases: the NIC before and after.
unfoldable pub released : Option NicData → DeleteVm → String → Option (NicData × NicData)
released none c now = none
released (some old_nic) c now =
    if opt_eq old_nic.spec.vm_id (some c.id)
    then some
        (old_nic, record old_nic { spec = record old_nic.spec { vm_id = none }; updated_at = now })
    else none

module _ ⦃redb : Redb⦄ where
  unfoldable pub put_released : Table NicData → Option (NicData × NicData) → Table NicData
  put_released t none = t
  put_released t (some (old_nic, new_nic)) = txn_put t old_nic.id new_nic

unfoldable pub released_events : Option (NicData × NicData) → List Event
released_events none = []
released_events (some (old_nic, new_nic)) = Event.nic_updated old_nic.id old_nic new_nic ∷ []

module _ ⦃redb : Redb⦄ (db : Tables) where
  unfoldable pub apply_create_vm : CreateVm → Handler
  apply_create_vm c = do
    return_if
        (any (λ v. v.spec.project_slug == c.spec.project_slug && v.spec.name == c.spec.name)
          (txn_list db.vms))
        (Response.error 409 ("VM with name '" <> c.spec.name <> "' already exists in project"))
    return_existing (txn_get db.vms c.id) Response.vm
    old_nic ← some_or (txn_get db.nics c.spec.nic_id) (nic_not_found c.spec.nic_id)
    check_nic old_nic.spec.vm_id c
    let vm = new_vm c
    let nic = record old_nic {
      spec = record old_nic.spec { vm_id = some c.id };
      updated_at = c.timestamp;
    }
    done (
      record db { nics = txn_put db.nics old_nic.id nic; vms = txn_put db.vms c.id vm },
      Response.vm vm,
      Event.vm_created vm ∷ Event.nic_updated old_nic.id old_nic nic ∷ [],
    )

  unfoldable pub apply_update_vm_spec : UpdateVmSpec → Handler
  apply_update_vm_spec c = do
    old_vm ← some_or (txn_get db.vms c.id) (vm_not_found c.id)
    let new_vm = record old_vm {
      spec = record old_vm.spec { desired_state = c.desired_state };
      updated_at = c.timestamp;
    }
    done (
      record db { vms = txn_put db.vms c.id new_vm },
      Response.vm new_vm,
      Event.vm_updated c.id old_vm new_vm ∷ [],
    )

  unfoldable pub apply_update_vm_status : UpdateVmStatus → Handler
  apply_update_vm_status c = do
    old_vm ← some_or (txn_get db.vms c.id) (vm_not_found c.id)
    let new_vm = record old_vm { status = c.status; updated_at = c.timestamp }
    done (
      record db { vms = txn_put db.vms c.id new_vm },
      Response.vm new_vm,
      Event.vm_status_updated c.id old_vm new_vm ∷ [],
    )

  -- `now` is the clock of the replica that applies the command.
  unfoldable pub apply_delete_vm : String → DeleteVm → Handler
  apply_delete_vm now c = do
    vm ← some_or (txn_get db.vms c.id) (vm_not_found c.id)
    let linked = if vm.spec.nic_id == "" then none else txn_get db.nics vm.spec.nic_id
    let nic = released linked c now
    done (
      record db { nics = put_released db.nics nic; vms = txn_delete db.vms c.id },
      Response.deleted c.id,
      Event.vm_deleted c.id ∷ released_events nic,
    )
