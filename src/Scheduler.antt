-- ===== src/Scheduler.antt =====
-- mvirt-cplane/src/scheduler.rs: which node a VM is placed on.
pub mod Largest
pub mod Placement
use Prim.Native.Char.{Char, code}
use Prim.Native.String
use mvirt.Prelude.{
  split_once, nat_eq, ℕ, ◌<>◌, String, Bool, true, false, Option, none, some, List, [], ◌∷◌, ◌==◌,
  ◌&&◌, ◌||◌, leb, keep, is_empty, opt_eq, decimal, if◌then◌else◌,
}
use mvirt.Resource.Node.{NodeData, NodeStatus}
use mvirt.Resource.Vm.{VmSpec}

pub record ScheduleResult : Type 0 where
  pub node_id : String
  pub reason : String

pub data ScheduleError : Type 0 where
  no_nodes_available : ScheduleError
  no_matching_nodes : String → ScheduleError
  insufficient_resources : ℕ → ℕ → ScheduleError

pub data Result (A : Type 0) : Type 0 where
  ok : A → Result A
  err : ScheduleError → Result A

-- `impl Display for ScheduleError`.
unfoldable pub fmt : ScheduleError → String
fmt ScheduleError.no_nodes_available = "No nodes available for scheduling"
fmt (ScheduleError.no_matching_nodes selector) = "No nodes match selector: " <> selector
fmt (ScheduleError.insufficient_resources cpu memory) =
    "No nodes have sufficient resources (need "
    <> decimal cpu
    <> " CPU, "
    <> decimal memory
    <> "MB RAM)"

abbrev pub is_online : NodeStatus → Bool
is_online NodeStatus.online = true
is_online NodeStatus.offline = false
is_online NodeStatus.unknown = false
is_online NodeStatus.onboarding = false
is_online NodeStatus.revoked = false

-- The value of a label; a map of labels is the list of its rows.
unfoldable pub label : String → List (String × String) → Option String
label key [] = none
label key ((k, v) ∷ rest) = if k == key then some v else label key rest

-- The last of the largest keys, as `Iterator::max_by_key`.
unfoldable pub max_by_memory : NodeData → List NodeData → NodeData
max_by_memory best [] = best
max_by_memory best (n ∷ rest) =
    max_by_memory
      (if leb best.resources.available_memory_mb n.resources.available_memory_mb then n else best)
      rest

unfoldable pub matches_label : NodeData → Option (String × String) → Bool
matches_label node none = false
matches_label node (some (key, value)) = opt_eq (label key node.labels) (some value)

-- 61 is the code of `=`.
unfoldable pub matches_selector : NodeData → String → Bool
matches_selector node selector =
    if node.id == selector
    then true
    else if node.name == selector
    then true
    else matches_label node (split_once 61 selector)

unfoldable pub has_sufficient_resources : NodeData → VmSpec → Bool
has_sufficient_resources node spec =
    leb spec.cpu_cores node.resources.available_cpu_cores
    && leb spec.memory_mb node.resources.available_memory_mb

infixl 5 ◌>>=◌
abbrev pub ◌>>=◌ : {A B : Type 0} → Result A → (A → Result B) → Result B
ok a >>= f = f a
err e >>= f = err e

-- `if filtered.is_empty() { return Err(e) }`.
abbrev pub non_empty : List NodeData → ScheduleError → Result (List NodeData)
non_empty [] e = err e
non_empty (n ∷ rest) e = ok (n ∷ rest)

unfoldable pub select_candidates : List NodeData → Option String → Result (List NodeData)
select_candidates online_nodes none = ok online_nodes
select_candidates online_nodes (some selector) =
    non_empty (keep (λ n. matches_selector n selector) online_nodes)
      (ScheduleError.no_matching_nodes selector)

-- The last two steps: an empty list is an error, another has a largest node.
unfoldable pub best_node : List NodeData → ScheduleError → Result NodeData
best_node [] e = err e
best_node (n ∷ rest) e = ok (max_by_memory n rest)

abbrev pub result_of : NodeData → ScheduleResult
result_of best = record {
  node_id = best.id;
  reason =
      "Selected node "
      <> best.name
      <> " with "
      <> decimal best.resources.available_memory_mb
      <> "MB available memory";
}

unfoldable pub select_node : List NodeData → VmSpec → Result ScheduleResult
select_node nodes spec = do
  online_nodes ← non_empty (keep (λ n. is_online n.status) nodes) ScheduleError.no_nodes_available
  candidates ← select_candidates online_nodes spec.node_selector
  let with_resources = keep (λ n. has_sufficient_resources n spec) candidates
  best ←
      best_node with_resources (ScheduleError.insufficient_resources spec.cpu_cores spec.memory_mb)
  ok (result_of best)
