-- ===== src/Tests/Effect.antt =====
-- VMs, NICs and networks on small states.
use mvirt.Prelude.{
  is_empty, if◌then◌else◌, not, true, ◌≢◌, String, ◌≡◌, refl, false, none, some, arith, eq_iff, [],
  any, ◌==◌, ◌&&◌,
}
use mvirt.Redb.Memory.{memory}
use mvirt.Redb.Keyed.{IsKeyed, put-IsKeyed}
use mvirt.Redb.Txn.{txn_has, txn_get, txn_put, txn_list}
use mvirt.Redb.Txn.Laws.{txn_has-txn_get, txn_get-txn_put_self, txn_get-new}
use mvirt.Resource.Network.{NetworkData, NicData, NicPhase}
use mvirt.Resource.Vm.{VmData, VmPhase, VmDesiredState}
use mvirt.Command.Network.{DeleteNetwork}
use mvirt.Command.Vm.{CreateVm, DeleteVm}
use mvirt.State.{Tables, init_tables}
use mvirt.Apply.Outcome.{◌>>=◌}
use mvirt.Apply.Ensures.{Commits}
use mvirt.Apply.Vm.{apply_create_vm, apply_delete_vm}
use mvirt.Invariant.Reach.{new-IsKeyed}
use mvirt.Effect.Network.{delete_network_lem}
use mvirt.Apply.Network.{apply_delete_network, nics_in_network}
use mvirt.Effect.Vm.{delete_vm_diverges, create_vm-delete_vm}
use mvirt.Tests.Sample.{test_redb, test_lru}

abbrev nic : NicData
nic = record {
  id = "nic";
  spec = record {
    project_slug = "web";
    name = none;
    network_id = "net";
    mac_address = "52:54:00:00:00:01";
    ipv4_address = none;
    ipv6_address = none;
    routed_ipv4_prefixes = [];
    routed_ipv6_prefixes = [];
    security_group_id = none;
    vm_id = none;
  };
  status = record { phase = NicPhase.pending; socket_path = ""; message = none };
  created_at = "t";
  updated_at = "t";
}

abbrev nic_db : Tables
nic_db = record init_tables { nics = txn_put init_tables.nics "nic" nic }

nics-IsKeyed : IsKeyed (λ n. n.id) nic_db.nics
unfolding init_tables
nics-IsKeyed = put-IsKeyed (λ n. n.id) _ "nic" nic refl (new-IsKeyed (λ n. n.id))

nic_there : txn_get nic_db.nics "nic" ≡ some nic
nic_there = txn_get-txn_put_self init_tables.nics "nic" "nic" nic refl

abbrev create : CreateVm
create = record {
  request_id = "r1";
  id = "vm";
  timestamp = "t1";
  spec = record {
    name = "server";
    project_slug = "web";
    node_selector = none;
    cpu_cores = 2;
    memory_mb = 1024;
    volume_id = "vol";
    nic_id = "nic";
    image = "";
    user_data = none;
    desired_state = VmDesiredState.running;
  };
}

abbrev delete : DeleteVm
delete = record { request_id = "r2"; id = "vm" }

name_free :
    any (λ v. v.spec.project_slug == "web" && v.spec.name == "server") (txn_list nic_db.vms) ≡ false
unfolding init_tables memory txn_list any
name_free = refl

vm_absent : txn_get nic_db.vms "vm" ≡ none
unfolding init_tables
vm_absent = txn_get-new "vm"

create_vm-delete_vm_example :
    Commits
      (λ a.
        ((j : String) → txn_get a.0.vms j ≡ txn_get nic_db.vms j)
        × (txn_get a.0.nics "nic" ≡ some (record nic { updated_at = "t2" })))
      (apply_create_vm nic_db create >>= λ a. apply_delete_vm a.0 "t2" delete)
create_vm-delete_vm_example =
    create_vm-delete_vm nic_db "t2" create delete nic nics-IsKeyed name_free vm_absent refl
      nic_there refl refl

abbrev vm : VmData
vm = record {
  id = "vm";
  spec = create.spec;
  status = record { phase = VmPhase.running; node_id = none; ip_address = none; message = none };
  created_at = "t";
  updated_at = "t";
}

abbrev held : NicData
held = record nic { spec = record nic.spec { vm_id = some "vm" } }

abbrev vm_db : Tables
vm_db = record init_tables {
  vms = txn_put init_tables.vms "vm" vm;
  nics = txn_put init_tables.nics "nic" held;
}

vm_there : txn_get vm_db.vms "vm" ≡ some vm
vm_there = txn_get-txn_put_self init_tables.vms "vm" "vm" vm refl

held_there : txn_get vm_db.nics "nic" ≡ some held
held_there = txn_get-txn_put_self init_tables.nics "nic" "nic" held refl

clocks_differ : ◌≢◌ {A = String} "10:00" "10:01"
clocks_differ same = let h : false ≡ true = (eq_iff "10:00" "10:01").1 same in cc

delete_vm_diverges_example :
    Commits
      (λ a.
        Commits
          (λ x. txn_get a.0.nics "nic" ≢ txn_get x.0.nics "nic")
          (apply_delete_vm vm_db "10:01" delete))
      (apply_delete_vm vm_db "10:00" delete)
delete_vm_diverges_example =
    delete_vm_diverges vm_db "10:00" "10:01" delete vm held vm_there refl held_there refl
      clocks_differ

abbrev network : NetworkData
network = record {
  id = "net";
  project_slug = "web";
  name = "lan";
  ipv4_enabled = true;
  ipv4_prefix = none;
  ipv6_enabled = false;
  ipv6_prefix = none;
  dns_servers = [];
  ntp_servers = [];
  is_public = false;
  nic_count = 1;
  created_at = "t";
  updated_at = "t";
}

abbrev net_db : Tables
net_db = record nic_db { networks = txn_put init_tables.networks "net" network }

abbrev drop_network : DeleteNetwork
drop_network = record { request_id = "r3"; id = "net"; force = true }

network_there : txn_has net_db.networks "net" ≡ true
network_there = ground (
  arith,
  txn_has-txn_get net_db.networks "net",
  txn_get-txn_put_self init_tables.networks "net" "net" network refl,
)

allowed : (not (is_empty (nics_in_network net_db "net")) && false) ≡ false
allowed = ground arith

delete_network_lem_example :
    Commits
      (λ a.
        (txn_get a.0.networks "net" ≡ none)
        × ((k : String)
            → txn_get a.0.nics k ≡ (elim (txn_get net_db.nics k) [
              | none ↦ none
              | some n ↦ if n.spec.network_id == "net" then none else some n
            ]))
        × (a.0.security_groups ≡ net_db.security_groups))
      (apply_delete_network net_db drop_network)
delete_network_lem_example =
    delete_network_lem net_db drop_network nics-IsKeyed network_there allowed
