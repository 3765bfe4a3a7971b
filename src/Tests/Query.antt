-- ===== src/Tests/Query.antt =====
-- Queries and logins after short histories.
use mathlib.Core.List.Memᴰ.{head, tail, not-nil}
use mathlib.Core.Path.{subst}
use mvirt.Prelude.{
  Memᴰ, sym, not, any, ◌≡◌, refl, String, true, false, none, some, List, [], ◌∷◌, length, arith,
  map, is_some,
}
use mvirt.Redb.{lookup, without}
use mvirt.Redb.Memory.{memory}
use mvirt.Redb.Txn.{read_get, txn_get, txn_has, txn_list, txn_put}
use mvirt.Lru.Bounded.{bounded, cut}
use mvirt.Replica.{Replica}
use mvirt.Response.{Response}
use mvirt.Command.{Command, request_id}
use mvirt.Command.Account.{BootstrapInitialPlatformAdmin, EnsureAccountFromOidc}
use mvirt.Resource.Network.{NetworkData}
use mvirt.Resource.Storage.{VolumeData, VolumePhase}
use mvirt.State.{ApiState, with_db, init_tables}
use mvirt.Apply.{apply, execute}
use mvirt.Apply.Run.{run}
use mvirt.Apply.Outcome.{returned}
use mvirt.Apply.Ensures.{Ensures, Commits}
use mvirt.Apply.Agree.{TreatTextsAlike, run_agree, is_deterministic}
use mvirt.Apply.Account.{apply_bootstrap_initial_platform_admin, apply_ensure_account_from_oidc}
use mvirt.Apply.Network.{apply_create_network}
use mvirt.Apply.Nic.{apply_create_nic, new_nic, find_security_group, count_up}
use mvirt.Apply.Org.{apply_create_org, apply_create_project}
use mvirt.Apply.Volume.{apply_create_volume, find_template, clones_up}
use mvirt.Query.Network.{get_network, list_nics}
use mvirt.Query.Storage.{get_volume, get_volume_by_name}
use mvirt.Query.Onboarding.{is_cert_revoked}
use mvirt.Query.Account.{get_account_by_oidc}
use mvirt.Query.Answers.{
  list_nics-nic_count, get_volume_by_name-get_volume, is_cert_revoked_forever,
}
use mvirt.Effect.Account.{LeavesMembership, bootstrap_once, get_account_by_oidc-login}
use mvirt.Tests.Onboarding.{token_db, node, node_there, revoke}
use mvirt.Tests.Sample.{
  test_redb, test_lru, replica, history, populated, create_org, create_project, create_network,
  create_nic,
}

abbrev networking : List (Replica × Command)
networking =
    (replica, create_network)
    ∷ (replica, create_nic "r5" "nic")
    ∷ (replica, create_nic "r6" "nic2")
    ∷ []

abbrev lan : NetworkData
lan = record {
  id = "net";
  project_slug = "web";
  name = "lan";
  ipv4_enabled = true;
  ipv4_prefix = some "10.0.0.0/24";
  ipv6_enabled = false;
  ipv6_prefix = none;
  dns_servers = [];
  ntp_servers = [];
  is_public = false;
  nic_count = 2;
  created_at = "t4";
  updated_at = "t4";
}

lan_there : get_network (run with_db networking).db "net" ≡ some lan
unfolding get_network read_get run with_db init_tables memory bounded lookup without cut apply
    execute request_id apply_create_network apply_create_nic new_nic find_security_group count_up
    txn_get txn_has txn_list txn_put any
lan_there = refl

list_nics-nic_count_example : length (list_nics (run with_db networking).db (some "net")) ≡ 2
list_nics-nic_count_example = list_nics-nic_count networking (omega arith) "net" lan lan_there

abbrev create_disk : Command
create_disk = Command.create_volume (record {
  request_id = "r7";
  id = "vol";
  timestamp = "t7";
  project_slug = "web";
  node_id = "node";
  name = "disk";
  size_bytes = 20;
  template_id = none;
})

abbrev storing : List (Replica × Command)
storing = (replica, create_org) ∷ (replica, create_project) ∷ (replica, create_disk) ∷ []

abbrev disk : VolumeData
disk = record {
  id = "vol";
  spec = record {
    project_slug = "web";
    node_id = "node";
    name = "disk";
    size_bytes = 20;
    template_id = none;
  };
  status = record {
    phase = VolumePhase.pending;
    path = "";
    used_bytes = 0;
    compression_ratio = 1;
    snapshots = [];
    error = none;
  };
  created_at = "t7";
  updated_at = "t7";
}

disk_there : get_volume (run with_db storing).db "vol" ≡ some disk
unfolding get_volume read_get run with_db init_tables memory bounded lookup without cut apply
    execute request_id apply_create_org apply_create_project apply_create_volume find_template
    clones_up txn_get txn_has txn_list txn_put any
disk_there = refl

get_volume_by_name-get_volume_example :
    get_volume_by_name (run with_db storing).db "web" "disk" ≡ some disk
get_volume_by_name-get_volume_example =
    get_volume_by_name-get_volume storing (omega arith) "vol" disk disk_there

-- A state with a node whose certificate has a serial.
abbrev joined : ApiState
joined = record with_db { db = token_db }

not_seen : test_lru.peek Response joined.applied_requests "r3" ≡ none
unfolding with_db bounded lookup
not_seen = refl

is_cert_revoked_forever_example :
    is_cert_revoked
      (run (apply replica joined (Command.revoke_node_cert revoke)).state history).db
      "07"
    ≡ true
is_cert_revoked_forever_example =
    is_cert_revoked_forever replica joined revoke node "07" history not_seen node_there refl

abbrev bootstrap : String → String → BootstrapInitialPlatformAdmin
bootstrap id account_id = record {
  request_id = id;
  timestamp = "t11";
  id = id;
  account_id = account_id;
}

create_org_leaves :
    (r : Replica) (cmd : Command)
    → Memᴰ {A = Replica × Command} (r, cmd) ((replica, create_org) ∷ [])
    → LeavesMembership "m1" cmd
create_org_leaves r cmd (head same) = subst (λ p. LeavesMembership "m1" p.1) (sym same) tt
create_org_leaves r cmd (tail later) = absurd (not-nil later)

bootstrap_once_example :
    Ensures
      (λ a.
        apply_bootstrap_initial_platform_admin
          (run (record populated { db = a.0 }) ((replica, create_org) ∷ [])).db
          (bootstrap "m2" "mallory")
        ≡ returned Response.ack)
      (apply_bootstrap_initial_platform_admin populated.db (bootstrap "m1" "alice"))
bootstrap_once_example =
    bootstrap_once populated replica (bootstrap "m1" "alice") (bootstrap "m2" "mallory")
      ((replica, create_org) ∷ []) create_org_leaves

abbrev login_alice : EnsureAccountFromOidc
login_alice = record {
  request_id = "r30";
  timestamp = "t30";
  new_id = "a2";
  iss = "https://id";
  sub = "1";
  email = some "alice@example.org";
  display_name = some "Alice";
}

get_account_by_oidc-login_example :
    Commits
      (λ a. is_some (get_account_by_oidc a.0 "https://id" "1") ≡ true)
      (apply_ensure_account_from_oidc populated.db replica login_alice)
get_account_by_oidc-login_example = get_account_by_oidc-login populated.db replica login_alice

-- A replica with another clock.
abbrev other_replica : Replica
other_replica = record replica { now = "2026-02-02"; new_serial = 8 ∷ [] }

abbrev building : List Command
building = create_org ∷ create_project ∷ create_network ∷ create_nic "r5" "nic" ∷ create_disk ∷ []

replicas_alike : TreatTextsAlike replica other_replica
replicas_alike = record { trim = refl; to_lowercase = refl }

all_deterministic : any (λ cmd. not (is_deterministic cmd)) building ≡ false
unfolding any
all_deterministic = refl

run_agree_example :
    run with_db (map (λ cmd. (replica, cmd)) building)
    ≡ run with_db (map (λ cmd. (other_replica, cmd)) building)
run_agree_example =
    run_agree replica other_replica replicas_alike with_db building all_deterministic
