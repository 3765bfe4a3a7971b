-- ===== src/Tests/Reconcile.antt =====
-- A VM and its node, when the reconciler comes to it.
use mvirt.Prelude.{ℕ, none, some, refl, [], if◌then◌else◌, nat_eq}
use mvirt.Redb.{lookup, without}
use mvirt.Redb.Memory.{memory}
use mvirt.Redb.Txn.{txn_get, txn_put, read_get}
use mvirt.Lru.Bounded.{bounded}
use mvirt.Resource.Vm.{VmData, VmPhase, VmDesiredState}
use mvirt.Resource.Storage.{VolumeData, VolumePhase}
use mvirt.State.{with_db, init_tables}
use mvirt.Query.Vm.{get_vm}
use mvirt.Query.Storage.{get_volume}
use mvirt.Reconcile.Daemon.{Nodes, answered, not_found}
use mvirt.Reconcile.Vm.{System, at_target, target_running, disk_path, nic_attach, reconcile}
use mvirt.Reconcile.Calm.{Calm}
use mvirt.Reconcile.Verdict.{Verdict, reconcile_lem}
use mvirt.Tests.Sample.{test_redb, test_lru}
use mvirt.Tests.Store.{test_raft, fresh}

-- One node, whose daemon keeps the state of one VM, or 0 if it does not know it.
instance abbrev test_nodes : Nodes
test_nodes = record {
  World = ℕ;
  Handle = Unit {0};
  get = λ node_id w. some tt;
  get_vm = λ h id w.
      if nat_eq w 0
      then (not_found "no such VM", w)
      else (answered (record { id = id; state = w }), w);
  create_vm = λ h req w. (answered (record { id = "v"; state = 1 }), 1);
  start_vm = λ h id w. (answered tt, 2);
  stop_vm = λ h id timeout w. (answered tt, 4);
}

abbrev vm : VmData
vm = record {
  id = "v";
  spec = record {
    name = "server";
    project_slug = "web";
    node_selector = none;
    cpu_cores = 2;
    memory_mb = 1024;
    volume_id = "disk";
    nic_id = "";
    image = "";
    user_data = none;
    desired_state = VmDesiredState.running;
  };
  status = record {
    phase = VmPhase.scheduled;
    node_id = some "n";
    ip_address = none;
    message = none;
  };
  created_at = "then";
  updated_at = "then";
}

abbrev disk : VolumeData
disk = record {
  id = "disk";
  spec = record {
    project_slug = "web";
    node_id = "n";
    name = "disk";
    size_bytes = 1000;
    template_id = none;
  };
  status = record {
    phase = VolumePhase.ready;
    path = "/dev/disk";
    used_bytes = 0;
    compression_ratio = 1;
    snapshots = [];
    error = none;
  };
  created_at = "then";
  updated_at = "then";
}

-- The VM runs there by now.
abbrev begin : System
begin = record {
  cluster = record with_db {
    db = record with_db.db {
      vms = txn_put with_db.db.vms "v" vm;
      volumes = txn_put with_db.db.volumes "disk" disk;
    };
  };
  world = 3;
}

calm : Calm (fresh "q1" "x") begin.cluster
unfolding with_db init_tables bounded
calm = record { current = refl; fresh = refl; alone = λ cmd. refl; answers = λ cmd. (_, refl) }

reconcile_lem_example :
    Verdict "v" vm tt "/dev/disk" none begin (reconcile (fresh "q1" "x") "v" begin).1
unfolding get_vm disk_path nic_attach get_volume read_get txn_put txn_get memory lookup without
    at_target target_running with_db init_tables
reconcile_lem_example =
    reconcile_lem (fresh "q1" "x") begin vm "n" "/dev/disk" none tt calm refl refl refl refl refl
      refl
