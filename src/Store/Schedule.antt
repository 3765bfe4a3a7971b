-- ===== src/Store/Schedule.antt =====
-- `create_and_schedule_vm` of mvirt-cplane/src/store/raft_store.rs: the scheduler and two commands,
-- one after the other.
use mvirt.Prelude.{
  String, true, ◌≡◌, refl, sym, ap, ◌∙◌, none, some, List, Memᴰ, Option-cases, inl, inr,
}
use mvirt.Redb.{Redb}
use mvirt.Redb.Txn.{txn_get}
use mvirt.Redb.Txn.Laws.{txn_get-txn_put_self}
use mvirt.Lru.{Lru}
use mvirt.Replica.{Replica}
use mvirt.Response.{Response}
use mvirt.Resource.Node.{NodeData}
use mvirt.Resource.Vm.{VmData, VmPhase}
use mvirt.Command.{Command, request_id}
use mvirt.Command.Vm.{UpdateVmStatus}
use mvirt.State.{ApiState}
use mvirt.Apply.{apply, execute}
use mvirt.Apply.Replay.{apply_fresh}
use mvirt.Apply.Vm.{apply_update_vm_status}
use mvirt.Query
use mvirt.Scheduler
use mvirt.Scheduler.{ScheduleResult, select_node}
use mvirt.Scheduler.Placement.{can_host, select_node-best}
use mvirt.Store.Error.{Result, ok, err}
use mvirt.Store.Request.{CreateVmRequest, UpdateVmStatusRequest}
use mvirt.Store.Raft.{Raft, Written, answered, failed, commit_point}
use mvirt.Store.Call.{
  Store, Fresh, Codes, lift, written, write_command, send, reply, continue, ◌>>=◌,
}
use mvirt.Store.Answer.{as_vm}
use mvirt.Store.Node.{list_nodes}
use mvirt.Store.Vm.{
  create_vm, update_vm_status, update_vm_status_command, create_and_schedule_vm, scheduled,
}

reply_vm_inv :
    (codes : Codes) (r : Response) (vm : VmData) → reply as_vm codes r ≡ ok vm → r ≡ Response.vm vm
unfolding reply
reply_vm_inv codes (Response.vm v) vm h = cc
reply_vm_inv codes Response.ack vm h = cc
reply_vm_inv codes _ vm h = cc

scheduled_inv :
    (m : Scheduler.Result ScheduleResult) (r : ScheduleResult)
    → scheduled m ≡ ok r
    → m ≡ Scheduler.ok r
scheduled_inv (Scheduler.ok x) r h = cc
scheduled_inv (Scheduler.err e) r h = cc

module _ ⦃redb : Redb⦄ ⦃lru : Lru⦄ where
  -- When the update of a status is answered with a VM, that is its row, with the status.
  status_row :
      (replica : Replica) (s : ApiState) (u : UpdateVmStatus) (vm : VmData)
      → lru.peek Response s.applied_requests u.request_id ≡ none
      → (apply replica s (Command.update_vm_status u)).response ≡ Response.vm vm
      → (txn_get (apply replica s (Command.update_vm_status u)).state.db.vms u.id ≡ some vm)
        × (vm.status ≡ u.status)
  unfolding request_id execute apply_update_vm_status
  status_row replica s u vm fresh =
      rw (apply_fresh replica s (Command.update_vm_status u) fresh)
        (elim (Option-cases (txn_get s.db.vms u.id)) [
          | inl gone ↦ rw gone (λ h. cc)
          | inr (old, there) ↦ rw there λ h.
              let e : record old { status = u.status; updated_at = u.timestamp } ≡ vm = cc in
              (
                txn_get-txn_put_self s.db.vms u.id u.id
                      (record old { status = u.status; updated_at = u.timestamp }) refl
                    ∙ ap some e,
                ap (λ v. v.status) (sym e),
              )
        ])

module _ ⦃redb : Redb⦄ ⦃lru : Lru⦄ ⦃raft : Raft⦄ where
  continue_inv :
      {A B : Type 0} (p : Result A × raft.Cluster) (f : A → Store B) (b : B)
      → (continue p f).0 ≡ ok b
      → (a : A) × (p.0 ≡ ok a) × ((f a p.1).0 ≡ ok b) × ((continue p f).1 ≡ (f a p.1).1)
  continue_inv (ok a, c) f b h = (a, refl, h, refl)
  continue_inv (err e, c) f b h = cc

  bind_inv :
      {A B : Type 0} (m : Store A) (f : A → Store B) (c : raft.Cluster) (b : B)
      → ((m >>= f) c).0 ≡ ok b
      → (a : A) × ((m c).0 ≡ ok a) × ((f a (m c).1).0 ≡ ok b) × (((m >>= f) c).1 ≡ (f a (m c).1).1)
  bind_inv m f c b h = continue_inv (m c) f b h

  written_inv :
      (p : Written × raft.Cluster) (r : Response)
      → (written p).0 ≡ ok r
      → (p.0 ≡ answered r) × ((written p).1 ≡ p.1)
  written_inv (answered q, c) r h = (cc, refl)
  written_inv (failed text, c) r h = cc

  send_vm_inv :
      (cmd : Command) (codes : Codes) (c : raft.Cluster) (vm : VmData)
      → (send cmd (reply as_vm codes) c).0 ≡ ok vm
      → ((raft.write_or_forward cmd c).0 ≡ answered (Response.vm vm))
        × ((send cmd (reply as_vm codes) c).1 ≡ (raft.write_or_forward cmd c).1)
  unfolding send write_command
  send_vm_inv cmd codes c vm h =
      let (r, got, replied, same) =
        bind_inv (write_command cmd) (λ q. lift (reply as_vm codes q)) c vm h in
      let (came, kept) = written_inv (raft.write_or_forward cmd c) r got in
      (came ∙ ap answered (reply_vm_inv codes r vm replied), same ∙ kept)

  status_lem :
      (g : Fresh) (id : String) (req : UpdateVmStatusRequest) (c : raft.Cluster) (vm : VmData)
      → lru.peek Response
          (commit_point (update_vm_status_command g id req) c).applied_requests
          g.request_id
        ≡ none
      → (update_vm_status g id req c).0 ≡ ok vm
      → (txn_get (raft.log_state (update_vm_status g id req c).1).db.vms id ≡ some vm)
        × (vm.status ≡ req.status)
  unfolding update_vm_status update_vm_status_command
  status_lem g id req c vm fresh h =
      let cmd : Command = update_vm_status_command g id req in
      let (came, kept) = send_vm_inv cmd _ c vm h in
      let (answer, state) = raft.answered_lem cmd c _ came in
      rw (kept, state)
        (status_row (raft.applier cmd c) (commit_point cmd c) _ vm fresh (sym answer))

  -- The steps of the call, from the last on.
  abbrev status_of : ScheduleResult → UpdateVmStatusRequest
  status_of result = record {
    status = record {
      phase = VmPhase.scheduled;
      node_id = some result.node_id;
      ip_address = none;
      message = some result.reason;
    };
  }

  abbrev after_create : Fresh → ScheduleResult → VmData → Store VmData
  after_create g result first = update_vm_status g first.id (status_of result)

  abbrev after_select : Fresh → Fresh → CreateVmRequest → ScheduleResult → Store VmData
  after_select f g req result = create_vm f req >>= after_create g result

  abbrev after_list : Fresh → Fresh → CreateVmRequest → List NodeData → Store VmData
  after_list f g req nodes = lift (scheduled (select_node nodes req.spec)) >>= after_select f g req

  -- When a VM is created and scheduled with success, and the request id of the update of its status
  -- is in no cache, then the VM that is answered is a row of the database, and is scheduled on
  -- a node that was listed when the call began, is online, is admitted by the selector, and has the
  -- processors and the memory.
  pub create_and_schedule_vm_lem :
      (f g : Fresh) (req : CreateVmRequest) (c : raft.Cluster) (vm : VmData)
      → ((cmd : Command)
          → request_id cmd ≡ g.request_id
          → lru.peek Response (commit_point cmd (create_vm f req c).1).applied_requests g.request_id
            ≡ none)
      → (create_and_schedule_vm f g req c).0 ≡ ok vm
      → ((id : String) × (txn_get (raft.log_state (create_and_schedule_vm f g req c).1).db.vms id
            ≡ some vm))
        × (vm.status.phase ≡ VmPhase.scheduled)
        × ((n : NodeData) × Memᴰ n (Query.Node.list_nodes (raft.get_state c).db)
            × (vm.status.node_id ≡ some n.id)
            × (can_host req.spec n ≡ true))
  unfolding create_and_schedule_vm list_nodes request_id update_vm_status_command
  create_and_schedule_vm_lem f g req c vm fresh h =
      let nodes : List NodeData = Query.Node.list_nodes (raft.get_state c).db in
      let (result, placed, h2, s2) =
        bind_inv (lift (scheduled (select_node nodes req.spec))) (after_select f g req) c vm h in
      let (first, made, h3, s3) = bind_inv (create_vm f req) (after_create g result) c vm h2 in
      let c1 : raft.Cluster = (create_vm f req c).1 in
      let (row, status) =
        status_lem g first.id (status_of result) c1 vm
          (fresh (update_vm_status_command g first.id (status_of result)) refl) h3 in
      let (n, listed, same_id, able, top) =
        select_node-best nodes req.spec result
          (scheduled_inv (select_node nodes req.spec) result placed) in
      (
        (first.id, rw (s2, s3) row),
        ap (λ x. x.phase) status,
        (n, listed, ap (λ x. x.node_id) status ∙ ap some same_id, able),
      )
