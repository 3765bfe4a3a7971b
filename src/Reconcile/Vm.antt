-- ===== src/Reconcile/Vm.antt =====
-- mvirt-cplane/src/reconciler/vm.rs: what the control plane makes a node do for a VM, and what it
-- writes back.
use Prim.Native.Char.{code}
use mvirt.Prelude.{
  ℕ, String, ◌<>◌, Bool, true, false, Option, none, some, [], ◌∷◌, ◌==◌, nat_eq, if◌then◌else◌,
  unwrap_or,
}
use mvirt.Redb.{Redb}
use mvirt.Lru.{Lru}
use mvirt.Response.{Response}
use mvirt.Resource.Vm.{VmData, VmPhase, VmStatus, VmDesiredState}
use mvirt.Resource.Storage.{VolumePhase}
use mvirt.Command.{Command}
use mvirt.State.{Tables}
use mvirt.Query.Vm.{get_vm}
use mvirt.Query.Storage.{get_volume}
use mvirt.Query.Network.{get_nic}
use mvirt.Store.Error.{Result, ok, err}
use mvirt.Store.Raft.{Raft}
use mvirt.Store.Call.{Fresh, submit}
use mvirt.Reconcile.Daemon.{
  Nodes, Vm, CreateVmRequest, Tried, done, failed, Calls, ◌>>=◌, pure, call, lookup_call,
}

-- `VmState` of mvirt-vmm/proto/mvirt.proto, and `VmState::try_from(n).unwrap_or(Unspecified)`.
pub data VmState : Type 0 where
  unspecified stopped starting running stopping : VmState

unfoldable pub observed : ℕ → VmState
observed n =
    if nat_eq n 1
    then VmState.stopped
    else if nat_eq n 2
    then VmState.starting
    else if nat_eq n 3
    then VmState.running
    else if nat_eq n 4
    then VmState.stopping
    else VmState.unspecified

unfoldable pub at_target : VmPhase → Bool → Bool
at_target VmPhase.running true = true
at_target VmPhase.stopped false = true
at_target VmPhase.failed target_running = true
at_target _ target_running = false

unfoldable pub target_running : VmDesiredState → Bool
target_running VmDesiredState.running = true
target_running _ = false

abbrev pub unless_empty : String → Option String
unless_empty text = if text == "" then none else some text

-- `name.replace('_', "-")`.
unfoldable pub dashed : String → String
dashed String.[] = ""
dashed (String.◌∷◌ c rest) =
    let others = dashed rest in if nat_eq (code c) 95 then "-" <> others else String.◌∷◌ c others

unfoldable pub create_vm_request : VmData → String → Option (String × String) → CreateVmRequest
unfolding dashed
create_vm_request vm disk_path nic_attach = record {
  id = some vm.id;
  name = some vm.spec.name;
  config = some (record {
    vcpus = vm.spec.cpu_cores;
    memory_mb = vm.spec.memory_mb;
    boot_mode = 2;
    kernel = unless_empty vm.spec.image;
    initramfs = none;
    cmdline = none;
    disks = record { path = disk_path; readonly = false } ∷ [];
    nics = elim nic_attach [
      | none ↦ []
      | some (socket, mac) ↦
          record { tap = none; mac = unless_empty mac; vhost_socket = some socket } ∷ []
    ];
    user_data =
        some (
          unwrap_or vm.spec.user_data ("#cloud-config\nhostname: " <> dashed vm.spec.name <> "\n"));
    nested_virt = false;
  });
}

-- The path of the boot volume, once that is ready.
unfoldable pub disk_path : ⦃redb : Redb⦄ → Tables → VmData → Option String
disk_path db vm = elim (get_volume db vm.spec.volume_id) [
  | none ↦ none
  | some vol ↦ elim vol.status.phase [ VolumePhase.ready ↦ unless_empty vol.status.path | _ ↦ none ]
]

-- No NIC, or a NIC that has its socket; otherwise the VM waits.
unfoldable pub nic_attach : ⦃redb : Redb⦄ → Tables → VmData → Option (Option (String × String))
nic_attach db vm = if vm.spec.nic_id == "" then some none else elim (get_nic db vm.spec.nic_id) [
  | none ↦ none
  | some nic ↦
      if nic.status.socket_path == ""
      then none
      else some (some (nic.status.socket_path, nic.spec.mac_address))
]

module _ ⦃nodes : Nodes⦄ where
  unfoldable pub get_or_create :
      nodes.Handle → VmData → String → Option (String × String) → Calls Vm
  get_or_create node vm path nic = do
    there ← lookup_call "get_vm" (nodes.get_vm node vm.id)
    elim there [
      | some v ↦ pure (done v)
      | none ↦ call "create_vm" (nodes.create_vm node (create_vm_request vm path nic))
    ]

  abbrev pub start : nodes.Handle → String → VmPhase → Calls VmPhase
  start node id phase = do tt ← call "start_vm" (nodes.start_vm node id); pure (done phase)

  abbrev pub stop : nodes.Handle → String → VmPhase → Calls VmPhase
  stop node id phase = do tt ← call "stop_vm" (nodes.stop_vm node id 30); pure (done phase)

  unfoldable pub toward_running : nodes.Handle → String → VmState → Calls VmPhase
  toward_running node id VmState.running = pure (done VmPhase.running)
  toward_running node id VmState.starting = pure (done VmPhase.creating)
  toward_running node id VmState.stopped = start node id VmPhase.creating
  toward_running node id VmState.unspecified = start node id VmPhase.creating
  toward_running node id VmState.stopping = pure (done VmPhase.stopping)

  unfoldable pub toward_stopped : nodes.Handle → String → VmState → Calls VmPhase
  toward_stopped node id VmState.stopped = pure (done VmPhase.stopped)
  toward_stopped node id VmState.unspecified = pure (done VmPhase.stopped)
  toward_stopped node id VmState.stopping = pure (done VmPhase.stopping)
  toward_stopped node id VmState.running = stop node id VmPhase.stopping
  toward_stopped node id VmState.starting = stop node id VmPhase.stopping

  unfoldable pub drive :
      nodes.Handle → VmData → String → Option (String × String) → Bool → Calls VmPhase
  unfolding get_or_create toward_running toward_stopped observed
  drive node vm path nic target = do
    current ← get_or_create node vm path nic
    if target
        then toward_running node vm.id (observed current.state)
        else toward_stopped node vm.id (observed current.state)

-- What becomes of the status.
abbrev pub status_after : String → VmData → Tried VmPhase → VmStatus
status_after node_id vm (done new_phase) = record {
  phase = new_phase;
  node_id = some node_id;
  ip_address = vm.status.ip_address;
  message = none;
}
status_after node_id vm (failed e) = record {
  phase = VmPhase.failed;
  node_id = some node_id;
  ip_address = vm.status.ip_address;
  message = some e;
}

abbrev pub status_command : Fresh → String → String → VmData → Tried VmPhase → Command
status_command g id node_id vm outcome = Command.update_vm_status (record {
  request_id = g.request_id;
  id = id;
  timestamp = g.now;
  status = status_after node_id vm outcome;
})

module _ ⦃redb : Redb⦄ ⦃lru : Lru⦄ ⦃raft : Raft⦄ ⦃nodes : Nodes⦄ where
  -- The cluster with the database, and the nodes.
  pub record System : Type 0 where
    pub cluster : raft.Cluster
    pub world : nodes.World

  -- The error also gets the words "write vm status" before it.
  abbrev pub acknowledged : Result Response → Result (Unit {0})
  acknowledged (ok r) = ok tt
  acknowledged (err e) = err e

  abbrev pub write_back : Command → nodes.World → raft.Cluster → Result (Unit {0}) × System
  write_back cmd world cluster =
      let (result, after) = submit cmd cluster in
      (acknowledged result, record { cluster = after; world = world })

  unfoldable pub reconcile : Fresh → String → System → Result (Unit {0}) × System
  unfolding target_running at_target disk_path nic_attach drive
  reconcile g id s =
      let db = (raft.get_state s.cluster).db in
      elim (get_vm db id) [
        | none ↦ (ok tt, s)
        | some vm ↦ elim vm.status.node_id [
          | none ↦ (ok tt, s)
          | some node_id ↦
              if at_target vm.status.phase (target_running vm.spec.desired_state)
              then (ok tt, s)
              else elim (disk_path db vm) [
                | none ↦ (ok tt, s)
                | some path ↦ elim (nic_attach db vm) [
                  | none ↦ (ok tt, s)
                  | some nic ↦ elim (nodes.get node_id s.world) [
                    | none ↦ (ok tt, s)
                    | some node ↦
                        let (outcome, after) =
                          drive node vm path nic (target_running vm.spec.desired_state) s.world in
                        write_back (status_command g id node_id vm outcome) after s.cluster
                  ]
                ]
              ]
        ]
      ]
