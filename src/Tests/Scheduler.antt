-- ===== src/Tests/Scheduler.antt =====
-- The scheduler on two nodes.
use mvirt.Prelude.{
  split_once, keep, ℕ, ◌≤◌, ◌⊎◌, String, ◌≡◌, refl, true, none, some, List, [], ◌∷◌, Memᴰ,
}
use mathlib.Core.List.Memᴰ.{head, tail}
use mvirt.Resource.Node.{NodeData, NodeStatus}
use mvirt.Resource.Vm.{VmSpec, VmDesiredState}
use mvirt.Scheduler.{
  ok, err, ScheduleResult, select_node, best_node, result_of, matches_selector, matches_label,
  label, has_sufficient_resources, select_candidates, max_by_memory,
}
use mvirt.Scheduler.Largest.{memory_of, IsLastLargest}
use mvirt.Scheduler.Placement.{
  can_host, why_not, select_node_lem, select_node-best, select_node-some,
}

abbrev host : String → ℕ → NodeData
host id memory = record {
  id = id;
  name = id;
  address = "";
  status = NodeStatus.online;
  resources = record {
    cpu_cores = 8;
    memory_mb = 4096;
    storage_gb = 100;
    available_cpu_cores = 4;
    available_memory_mb = memory;
    available_storage_gb = 50;
  };
  labels = ("zone", "a") ∷ [];
  last_heartbeat = "t";
  created_at = "t";
  updated_at = "t";
  cluster_slug = none;
  cert_serial_hex = none;
  cert_expires_at = none;
  hostname = none;
  agent_version = none;
}

abbrev hosts : List NodeData
hosts = host "small" 512 ∷ host "large" 4096 ∷ host "medium" 2048 ∷ []

abbrev spec : VmSpec
spec = record {
  name = "server";
  project_slug = "web";
  node_selector = some "zone=a";
  cpu_cores = 2;
  memory_mb = 1024;
  volume_id = "vol";
  nic_id = "nic";
  image = "";
  user_data = none;
  desired_state = VmDesiredState.running;
}

selected_large : select_node hosts spec ≡ ok (result_of (host "large" 4096))
unfolding select_node keep select_candidates matches_selector matches_label split_once label
    has_sufficient_resources best_node max_by_memory
selected_large = refl

able : can_host spec (host "medium" 2048) ≡ true
unfolding matches_selector matches_label split_once label has_sufficient_resources
able = refl

select_node_lem_example :
    ((keep (can_host spec) hosts ≡ []) × (select_node hosts spec ≡ err (why_not hosts spec)))
    ⊎ ((n : NodeData) × IsLastLargest n (keep (can_host spec) hosts)
        × (select_node hosts spec ≡ ok (result_of n)))
select_node_lem_example = select_node_lem hosts spec

select_node-best_example :
    (n : NodeData) × Memᴰ n hosts
    × ("large" ≡ n.id)
    × (can_host spec n ≡ true)
    × ((m : NodeData) → Memᴰ m hosts → can_host spec m ≡ true → memory_of m ≤ memory_of n)
select_node-best_example =
    select_node-best hosts spec (result_of (host "large" 4096)) selected_large

select_node-some_example : (r : ScheduleResult) × (select_node hosts spec ≡ ok r)
select_node-some_example =
    select_node-some hosts spec (host "medium" 2048) (tail (tail (head refl))) able
