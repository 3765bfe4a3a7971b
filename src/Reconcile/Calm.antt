-- ===== src/Reconcile/Calm.antt =====
-- What a calm cluster makes of a status that the reconciler of mvirt-cplane/src/reconciler/vm.rs
-- writes.
use mvirt.Prelude.{◌≡◌, refl, ap, ◌∙◌, none, some, []}
use mvirt.Redb.{Redb}
use mvirt.Redb.Txn.{txn_get, txn_put}
use mvirt.Lru.{Lru}
use mvirt.Replica.{Replica}
use mvirt.Response.{Response}
use mvirt.Resource.Vm.{VmData}
use mvirt.Command.{Command, request_id}
use mvirt.Command.Vm.{UpdateVmStatus}
use mvirt.State.{ApiState}
use mvirt.Apply.{apply, execute}
use mvirt.Apply.Run.{run}
use mvirt.Apply.Replay.{apply_fresh}
use mvirt.Apply.Vm.{apply_update_vm_status}
use mvirt.Store.Raft.{Raft, Written, answered, failed}
use mvirt.Store.Call.{Fresh, written, submit}

module _ ⦃redb : Redb⦄ ⦃lru : Lru⦄ where
  -- The row of a VM after its status is updated.
  status_db :
      (replica : Replica) (s : ApiState) (u : UpdateVmStatus) (old : VmData)
      → lru.peek Response s.applied_requests u.request_id ≡ none
      → txn_get s.db.vms u.id ≡ some old
      → (apply replica s (Command.update_vm_status u)).state.db ≡ record s.db {
        vms = txn_put s.db.vms u.id (record old { status = u.status; updated_at = u.timestamp });
      }
  unfolding request_id execute apply_update_vm_status
  status_db replica s u old fresh there =
      rw (apply_fresh replica s (Command.update_vm_status u) fresh, there) refl

module _ ⦃redb : Redb⦄ ⦃lru : Lru⦄ ⦃raft : Raft⦄ where
  -- A cluster that answers, whose local replica is up to date, on which nobody else writes, and that
  -- has not seen a request yet.
  pub record Calm (g : Fresh) (c : raft.Cluster) : Type 0 where
    pub current : raft.get_state c ≡ raft.log_state c
    pub fresh : lru.peek Response (raft.log_state c).applied_requests g.request_id ≡ none
    pub alone : (cmd : Command) → raft.others cmd c ≡ []
    pub answers : (cmd : Command) → (r : Response) × ((raft.write_or_forward cmd c).0 ≡ answered r)

  written_cluster : (p : Written × raft.Cluster) → (written p).1 ≡ p.1
  written_cluster (answered r, c) = refl
  written_cluster (failed text, c) = refl

  -- What a calm cluster's log makes of an update of a status.
  pub submit_db :
      (g : Fresh) (c : raft.Cluster) (u : UpdateVmStatus) (old : VmData)
      → Calm g c
      → u.request_id ≡ g.request_id
      → txn_get (raft.log_state c).db.vms u.id ≡ some old
      → (raft.log_state (submit (Command.update_vm_status u) c).1).db
        ≡ record (raft.log_state c).db {
          vms =
              txn_put
                (raft.log_state c).db.vms
                u.id
                (record old { status = u.status; updated_at = u.timestamp });
        }
  unfolding submit run
  submit_db g c u old calm same there =
      let cmd : Command = Command.update_vm_status u in
      let (r, said) = calm.answers cmd in
      let law = (raft.answered_lem cmd c r said).1 in
      let at_log : run (raft.log_state c) (raft.others cmd c) ≡ raft.log_state c =
        ap (run (raft.log_state c)) (calm.alone cmd) in
      ap (λ d. (raft.log_state d).db) (written_cluster (raft.write_or_forward cmd c))
      ∙ ap (λ t. t.db) law
      ∙ ap (λ t. (apply (raft.applier cmd c) t cmd).state.db) at_log
      ∙ status_db (raft.applier cmd c) (raft.log_state c) u old
          (ap (lru.peek Response (raft.log_state c).applied_requests) same ∙ calm.fresh) there
