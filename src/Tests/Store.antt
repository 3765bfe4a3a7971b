-- ===== src/Tests/Store.antt =====
-- The store over a cluster of one replica.
use mvirt.Prelude.{String, true, not, ◌≡◌, refl, none, some, List, [], ◌∷◌, Memᴰ}
use mvirt.Redb.Memory.{memory}
use mvirt.Redb.Txn.{txn_get}
use mvirt.Lru.Bounded.{bounded}
use mvirt.Replica.{Replica}
use mvirt.Response.{Response}
use mvirt.Command.{Command, request_id}
use mvirt.Resource.Node.{NodeData, NodeResources}
use mvirt.Resource.Vm.{VmData, VmPhase, VmDesiredState}
use mvirt.State.{ApiState, with_db}
use mvirt.Apply.{apply, execute}
use mvirt.Apply.Run.{run}
use mvirt.Apply.Errors.{is_error}
use mvirt.Query
use mvirt.Scheduler.Placement.{can_host}
use mvirt.Store.Error.{ok}
use mvirt.Store.Request.{CreateVmRequest, RegisterNodeRequest}
use mvirt.Store.Raft.{Raft, Written, answered, failed, joined, commit_point}
use mvirt.Store.Call.{Fresh}
use mvirt.Store.Write.{Write, command_of}
use mvirt.Store.Client.{write}
use mvirt.Store.Answered.{is_ok, write-is_error}
use mvirt.Store.Schedule.{create_and_schedule_vm_lem}
use mvirt.Store.Vm.{
  create_and_schedule_vm, create_vm, update_vm_status, create_vm_command, update_vm_status_command,
}
use mvirt.Store.Node.{list_nodes, upsert_node_command}
use mvirt.Store.Call.{read, send, reply, write_command}
use mvirt.Redb.{lookup, without}
use mvirt.Redb.Txn.{txn_has, txn_list, txn_put, read_list}
use mvirt.Lru.Bounded.{cut}
use mvirt.Apply.Vm.{apply_create_vm, check_nic, apply_update_vm_status}
use mvirt.Apply.Node.{apply_register_node}
use mvirt.Apply.Network.{apply_create_network}
use mvirt.Apply.Nic.{apply_create_nic, new_nic, find_security_group, count_up}
use mvirt.Apply.Org.{apply_create_org, apply_create_project}
use mvirt.State.{init_tables}
use mvirt.Scheduler.{
  select_node, max_by_memory, has_sufficient_resources, best_node, select_candidates,
}
use mvirt.Prelude.{any, keep, decimal}
use mvirt.Tests.Sample.{
  test_redb, test_lru, replica, create_org, create_project, create_network, create_nic,
}

abbrev pub apply_at : Command → ApiState → Written × ApiState
apply_at cmd c = (answered (apply replica c cmd).response, (apply replica c cmd).state)

pub answered_law :
    (cmd : Command) (c : ApiState) (r : Response)
    → (apply_at cmd c).0 ≡ answered r
    → (r ≡ (apply replica (run c []) cmd).response)
      × ((apply_at cmd c).1 ≡ (apply replica (run c []) cmd).state)
unfolding run
answered_law cmd c r h = (cc, refl)

pub failed_law :
    (cmd : Command) (c : ApiState) (text : String)
    → (apply_at cmd c).0 ≡ failed text
    → (cmds : List (Replica × Command)) × ((apply_at cmd c).1 ≡ run c cmds)
failed_law cmd c text h = cc

instance abbrev pub test_raft : Raft
test_raft = record {
  Cluster = ApiState;
  log_state = λ c. c;
  get_state = λ c. c;
  others = λ cmd c. [];
  applier = λ cmd c. replica;
  write_or_forward = apply_at;
  metrics = λ c. record { current_leader = some 1; current_term = 1; last_applied = some 5 };
  get_membership = λ c. record { nodes = (1, "here") ∷ []; voters = 1 ∷ []; learners = [] };
  create_join_token = λ peer ttl c. (joined "token", c);
  remove_node = λ peer c. (joined tt, c);
  join_error_text = λ e. "";
  answered_lem = answered_law;
  failed_lem = failed_law;
  log-create_join_token = λ peer ttl c. refl;
  log-remove_node = λ peer c. refl;
}

abbrev pub fresh : String → String → Fresh
fresh request id = record {
  request_id = request;
  uuid = id;
  simple = id;
  simple_membership = id;
  now = "now";
  later = λ n. "later";
  bare_token = "bare";
  short_id = id;
}

abbrev capacity : NodeResources
capacity = record {
  cpu_cores = 8;
  memory_mb = 4096;
  storage_gb = 100;
  available_cpu_cores = 8;
  available_memory_mb = 4096;
  available_storage_gb = 100;
}

abbrev big_node : RegisterNodeRequest
big_node = record { name = "big"; address = "10.0.0.1"; resources = capacity; labels = [] }

abbrev joins : Write
joins = Write.upsert_node (fresh "q1" "x") "n1" big_node

-- An organization with a project, a network with a NIC, and a node.
abbrev ready : ApiState
ready = run with_db (
    (replica, create_org)
    ∷ (replica, create_project)
    ∷ (replica, create_network)
    ∷ (replica, create_nic "r5" "nic")
    ∷ (replica, command_of joins)
    ∷ [])

abbrev server : CreateVmRequest
server = record {
  spec = record {
    name = "server";
    project_slug = "web";
    node_selector = none;
    cpu_cores = 2;
    memory_mb = 1024;
    volume_id = "vol";
    nic_id = "nic";
    image = "";
    user_data = none;
    desired_state = VmDesiredState.running;
  };
}

abbrev scheduled_vm : VmData
scheduled_vm = record {
  id = "v1";
  spec = server.spec;
  status = record {
    phase = VmPhase.scheduled;
    node_id = some "n1";
    ip_address = none;
    message = some "Selected node big with 4096MB available memory";
  };
  created_at = "now";
  updated_at = "now";
}

scheduled_ok :
    (create_and_schedule_vm (fresh "q2" "v1") (fresh "q3" "x") server ready).0 ≡ ok scheduled_vm
unfolding create_and_schedule_vm create_vm update_vm_status list_nodes read send reply write_command
    create_vm_command update_vm_status_command run with_db init_tables apply execute memory lookup
    without bounded cut request_id command_of upsert_node_command apply_register_node
    apply_create_org apply_create_project apply_create_network apply_create_nic new_nic
    find_security_group count_up apply_create_vm check_nic apply_update_vm_status txn_get txn_has
    txn_list txn_put read_list any keep decimal select_node max_by_memory has_sufficient_resources
    best_node select_candidates Query.Node.list_nodes
scheduled_ok = refl

second_fresh :
    (cmd : Command)
    → request_id cmd ≡ "q3"
    → test_lru.peek Response
        (commit_point cmd (create_vm (fresh "q2" "v1") server ready).1).applied_requests
        "q3"
      ≡ none
unfolding create_and_schedule_vm create_vm update_vm_status list_nodes read send reply write_command
    create_vm_command update_vm_status_command run with_db init_tables apply execute memory lookup
    without bounded cut request_id command_of upsert_node_command apply_register_node
    apply_create_org apply_create_project apply_create_network apply_create_nic new_nic
    find_security_group count_up apply_create_vm check_nic apply_update_vm_status txn_get txn_has
    txn_list txn_put read_list any keep decimal select_node max_by_memory has_sufficient_resources
    best_node select_candidates Query.Node.list_nodes
second_fresh cmd h = refl

create_and_schedule_vm_lem_example :
    ((id : String) × (txn_get
          (create_and_schedule_vm (fresh "q2" "v1") (fresh "q3" "x") server ready).1.db.vms
          id
        ≡ some scheduled_vm))
    × (scheduled_vm.status.phase ≡ VmPhase.scheduled)
    × ((n : NodeData) × Memᴰ n (Query.Node.list_nodes ready.db)
        × (scheduled_vm.status.node_id ≡ some n.id)
        × (can_host server.spec n ≡ true))
create_and_schedule_vm_lem_example =
    create_and_schedule_vm_lem (fresh "q2" "v1") (fresh "q3" "x") server ready scheduled_vm
      second_fresh scheduled_ok

join_fresh :
    test_lru.peek Response
      (commit_point (command_of joins) with_db).applied_requests
      (request_id (command_of joins))
    ≡ none
unfolding with_db init_tables run bounded memory lookup
join_fresh = refl

write-is_error_example :
    is_ok (write joins with_db).0
    ≡ not (is_error (apply replica with_db (command_of joins)).response)
write-is_error_example =
    write-is_error joins with_db (apply replica with_db (command_of joins)).response join_fresh refl
