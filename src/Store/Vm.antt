-- ===== src/Store/Vm.antt =====
-- mvirt-cplane/src/store/raft_store.rs: the methods of the store for virtual machines.
use mvirt.Prelude.{String, Option, none, some, List, [], ◌∷◌}
use mvirt.Redb.{Redb}
use mvirt.Lru.{Lru}
use mvirt.Query
use mvirt.Command.{Command}
use mvirt.Resource.Vm.{VmData}
use mvirt.Store.Error.{StoreError}
use mvirt.Store.Error.StoreError.{not_found, conflict}
use mvirt.Store.Request.{CreateVmRequest, UpdateVmSpecRequest, UpdateVmStatusRequest}
use mvirt.Store.Raft.{Raft}
use mvirt.Store.Call.{Fresh, Store, read, send, reply}
use mvirt.Store.Answer.{as_deleted, as_vm}
use mvirt.Scheduler
use mvirt.Scheduler.{ScheduleResult, select_node}
use mvirt.Resource.Vm.{VmPhase}
use mvirt.Store.Call.{◌>>=◌, lift}
use mvirt.Store.Error.{Result, ok, err}
use mvirt.Store.Node.{list_nodes}

unfoldable pub update_vm_spec_command : Fresh → String → UpdateVmSpecRequest → Command
update_vm_spec_command f id req = Command.update_vm_spec (record {
  request_id = f.request_id;
  id = id;
  timestamp = f.now;
  desired_state = req.desired_state;
})

unfoldable pub create_vm_command : Fresh → CreateVmRequest → Command
create_vm_command f req =
    Command.create_vm
      (record { request_id = f.request_id; id = f.uuid; timestamp = f.now; spec = req.spec })

unfoldable pub update_vm_status_command : Fresh → String → UpdateVmStatusRequest → Command
update_vm_status_command f id req =
    Command.update_vm_status
      (record { request_id = f.request_id; id = id; timestamp = f.now; status = req.status })

unfoldable pub delete_vm_command : Fresh → String → Command
delete_vm_command f id = Command.delete_vm (record { request_id = f.request_id; id = id })

-- The scheduler's node, as a result of the store.
abbrev pub scheduled : Scheduler.Result ScheduleResult → Result ScheduleResult
scheduled (Scheduler.ok result) = ok result
scheduled (Scheduler.err e) = err (StoreError.schedule_failed (Scheduler.fmt e))

module _ ⦃redb : Redb⦄ ⦃lru : Lru⦄ ⦃raft : Raft⦄ where
  unfoldable pub list_vms : Store (List VmData)
  unfolding read
  list_vms = read (λ db. Query.Vm.list_vms db none)

  unfoldable pub list_vms_by_project : String → Store (List VmData)
  unfolding read
  list_vms_by_project project_slug = read (λ db. Query.Vm.list_vms_by_project db project_slug)

  unfoldable pub list_vms_by_node : String → Store (List VmData)
  unfolding read
  list_vms_by_node node_id = read (λ db. Query.Vm.list_vms db (some node_id))

  unfoldable pub get_vm : String → Store (Option VmData)
  unfolding read
  get_vm id = read (λ db. Query.Vm.get_vm db id)

  unfoldable pub get_vm_by_name : String → Store (Option VmData)
  unfolding read
  get_vm_by_name name = read (λ db. Query.Vm.get_vm_by_name db name)

  unfoldable pub create_vm : Fresh → CreateVmRequest → Store VmData
  create_vm f req =
      send (create_vm_command f req) (reply as_vm ((404, not_found) ∷ (409, conflict) ∷ []))

  unfoldable pub update_vm_spec : Fresh → String → UpdateVmSpecRequest → Store VmData
  update_vm_spec f id req =
      send (update_vm_spec_command f id req) (reply as_vm ((404, not_found) ∷ []))

  unfoldable pub update_vm_status : Fresh → String → UpdateVmStatusRequest → Store VmData
  update_vm_status f id req =
      send (update_vm_status_command f id req) (reply as_vm ((404, not_found) ∷ []))

  unfoldable pub delete_vm : Fresh → String → Store (Unit {0})
  delete_vm f id = send (delete_vm_command f id) (reply as_deleted ((404, not_found) ∷ []))

  unfoldable pub create_and_schedule_vm : Fresh → Fresh → CreateVmRequest → Store VmData
  unfolding list_nodes create_vm update_vm_status select_node
  create_and_schedule_vm f g req = do
    nodes ← list_nodes
    schedule_result ← lift (scheduled (select_node nodes req.spec))
    vm ← create_vm f req
    update_vm_status g vm.id (record {
      status = record {
        phase = VmPhase.scheduled;
        node_id = some schedule_result.node_id;
        ip_address = none;
        message = some schedule_result.reason;
      };
    })
