-- ===== src/Reconcile/Verdict.antt =====
-- What mvirt-cplane/src/reconciler/vm.rs makes of the row of a VM.
use mvirt.Prelude.{String, true, false, ◌≡◌, refl, sym, ap, ◌∙◌, ◌↔◌, Option, some}
use mathlib.Core.Path.{subst}
use mvirt.Redb.{Redb}
use mvirt.Redb.Txn.{txn_get, read_get}
use mvirt.Redb.Txn.Laws.{txn_get-txn_put_self}
use mvirt.Lru.{Lru}
use mvirt.Resource.Vm.{VmData, VmPhase}
use mvirt.Query.Vm.{get_vm}
use mvirt.Store.Raft.{Raft}
use mvirt.Store.Call.{Fresh}
use mvirt.Reconcile.Daemon.{Nodes, Tried, done, failed}
use mvirt.Reconcile.Vm.{
  System, VmState, reconcile, drive, disk_path, nic_attach, at_target, target_running,
  status_command, status_after, write_back,
}
use mvirt.Reconcile.Says.{Says, SaysHalted, drive-running, drive-stopped}
use mvirt.Reconcile.Calm.{Calm, submit_db}

-- A VM whose node is known.
abbrev on_node : VmData → String → VmData
on_node vm node_id = record vm { status = record vm.status { node_id = some node_id } }

phase_after :
    (node_id : String) (vm : VmData) (phase : VmPhase) (t : Tried VmPhase)
    → ¬ (phase ≡ VmPhase.failed)
    → ((status_after node_id vm t).phase ≡ phase) ↔ (t ≡ done phase)
phase_after node_id vm phase (done p) other = (λ e. ap done e, λ e. cc)
phase_after node_id vm phase (failed text) other = (λ e. absurd (other (sym e)), λ e. cc)

module _ ⦃redb : Redb⦄ ⦃lru : Lru⦄ ⦃raft : Raft⦄ ⦃nodes : Nodes⦄ where
  abbrev outcome :
      VmData
      → nodes.Handle
      → String
      → Option (String × String)
      → System
      → Tried VmPhase × nodes.World
  outcome vm h path nic s = drive h vm path nic (target_running vm.spec.desired_state) s.world

  reconcile_eq :
      (g : Fresh) (s : System) (vm : VmData) (node_id path : String)
      (nic : Option (String × String)) (h : nodes.Handle)
      → get_vm (raft.get_state s.cluster).db vm.id ≡ some (on_node vm node_id)
      → at_target vm.status.phase (target_running vm.spec.desired_state) ≡ false
      → disk_path (raft.get_state s.cluster).db (on_node vm node_id) ≡ some path
      → nic_attach (raft.get_state s.cluster).db (on_node vm node_id) ≡ some nic
      → nodes.get node_id s.world ≡ some h
      → reconcile g vm.id s
        ≡ write_back
            (status_command g vm.id node_id
              (on_node vm node_id)
              (outcome (on_node vm node_id) h path nic s).0)
            (outcome (on_node vm node_id) h path nic s).1
            s.cluster
  unfolding reconcile
  reconcile_eq g s vm node_id path nic h there behind disk attached connected =
      rw (there, behind, disk, attached, connected, reconcile) refl

  -- What the log's row of a VM becomes.
  row_after :
      (g : Fresh) (s : System) (vm : VmData) (node_id path : String)
      (nic : Option (String × String)) (h : nodes.Handle)
      → Calm g s.cluster
      → get_vm (raft.log_state s.cluster).db vm.id ≡ some (on_node vm node_id)
      → reconcile g vm.id s
        ≡ write_back
            (status_command g vm.id node_id
              (on_node vm node_id)
              (outcome (on_node vm node_id) h path nic s).0)
            (outcome (on_node vm node_id) h path nic s).1
            s.cluster
      → get_vm (raft.log_state (reconcile g vm.id s).1.cluster).db vm.id
        ≡ some (record vm {
          status =
              status_after node_id
                (on_node vm node_id)
                (outcome (on_node vm node_id) h path nic s).0;
          updated_at = g.now;
        })
  unfolding get_vm txn_get read_get
  row_after g s vm node_id path nic h calm there e =
      ap (λ r. get_vm (raft.log_state r.1.cluster).db vm.id) e
      ∙ ap (λ db. get_vm db vm.id) (submit_db g s.cluster _ (on_node vm node_id) calm refl there)
      ∙ txn_get-txn_put_self (raft.log_state s.cluster).db.vms vm.id vm.id
          (record vm {
            status =
                status_after node_id (on_node vm node_id)
                  (outcome (on_node vm node_id) h path nic s).0;
            updated_at = g.now;
          })
          refl

  -- The row that the reconciler leaves: only the daemon's word makes it running or stopped.
  abbrev pub Verdict :
      String → VmData → nodes.Handle → String → Option (String × String) → System → System → Type 0
  Verdict id vm h path nic s after =
      (now : VmData) × (get_vm (raft.log_state after.cluster).db id ≡ some now)
      × (now.spec ≡ vm.spec)
      × ((now.status.phase ≡ VmPhase.running) ↔ (
          (target_running vm.spec.desired_state ≡ true)
          × Says h vm path nic VmState.running s.world))
      × ((now.status.phase ≡ VmPhase.stopped)
          ↔ ((target_running vm.spec.desired_state ≡ false) × SaysHalted h vm path nic s.world))

  Verdict-on_node :
      (g : Fresh) (s : System) (vm : VmData) (node_id path : String)
      (nic : Option (String × String)) (h : nodes.Handle)
      → Calm g s.cluster
      → get_vm (raft.log_state s.cluster).db vm.id ≡ some (on_node vm node_id)
      → at_target vm.status.phase (target_running vm.spec.desired_state) ≡ false
      → disk_path (raft.log_state s.cluster).db (on_node vm node_id) ≡ some path
      → nic_attach (raft.log_state s.cluster).db (on_node vm node_id) ≡ some nic
      → nodes.get node_id s.world ≡ some h
      → Verdict vm.id (on_node vm node_id) h path nic s (reconcile g vm.id s).1
  Verdict-on_node g s vm node_id path nic h calm there behind disk attached connected =
      let e =
        reconcile_eq g s vm node_id path nic h (ap (λ t. get_vm t.db vm.id) calm.current ∙ there)
          behind (ap (λ t. disk_path t.db (on_node vm node_id)) calm.current ∙ disk)
          (ap (λ t. nic_attach t.db (on_node vm node_id)) calm.current ∙ attached) connected in
      let o = (outcome (on_node vm node_id) h path nic s).0 in
      let target = target_running vm.spec.desired_state in
      let ran = phase_after node_id (on_node vm node_id) VmPhase.running o (λ f. cc) in
      let halted = phase_after node_id (on_node vm node_id) VmPhase.stopped o (λ f. cc) in
      let says = drive-running h (on_node vm node_id) path nic target s.world in
      let says_halted = drive-stopped h (on_node vm node_id) path nic target s.world in
      (
        record vm { status = status_after node_id (on_node vm node_id) o; updated_at = g.now },
        row_after g s vm node_id path nic h calm there e,
        refl,
        (λ f. says.0 (ran.0 f), λ f. ran.1 (says.1 f)),
        (λ f. says_halted.0 (halted.0 f), λ f. halted.1 (says_halted.1 f)),
      )

  -- If the reconciler handles a placed VM whose phase is neither what is asked for nor failed, whose
  -- boot volume and NIC are ready and whose node is connected, on a cluster that answers, whose local replica is
  -- up to date, that has not seen the request and on which nobody else writes, then the log has a
  -- row of the VM with the same spec; it says running exactly if running is asked for and the
  -- daemon reported the VM as running, and stopped exactly if running is not asked for and the
  -- daemon reported it as stopped or without a state. What is reported is the answer to `get_vm`,
  -- or to `create_vm` if the daemon does not know the VM.
  pub reconcile_lem :
      (g : Fresh) (s : System) (vm : VmData) (node_id path : String)
      (nic : Option (String × String)) (h : nodes.Handle)
      → Calm g s.cluster
      → get_vm (raft.log_state s.cluster).db vm.id ≡ some vm
      → vm.status.node_id ≡ some node_id
      → at_target vm.status.phase (target_running vm.spec.desired_state) ≡ false
      → disk_path (raft.log_state s.cluster).db vm ≡ some path
      → nic_attach (raft.log_state s.cluster).db vm ≡ some nic
      → nodes.get node_id s.world ≡ some h
      → Verdict vm.id vm h path nic s (reconcile g vm.id s).1
  reconcile_lem g s vm node_id path nic h calm there placed behind disk attached connected =
      let db = (raft.log_state s.cluster).db in
      let same : vm ≡ on_node vm node_id =
        λ i. record vm { status = record vm.status { node_id = placed i } } in
      subst (λ v. Verdict vm.id v h path nic s (reconcile g vm.id s).1) (sym same)
        (Verdict-on_node g s vm node_id path nic h calm (there ∙ ap Option.some same) behind
          (ap (disk_path db) (sym same) ∙ disk) (ap (nic_attach db) (sym same) ∙ attached)
          connected)
