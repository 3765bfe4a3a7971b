-- ===== src/Scheduler/Placement.antt =====
-- The scheduler against a description of it: the online nodes that the selector admits and that
-- have the processors and the memory, and of these the last with the most memory.
use mvirt.Prelude.{
  false, split_once, ◌==◌, ◌||◌, opt_eq, keep_complete, keep_sound, leb, ◌≤◌, Memᴰ, any-keep, ◌⊎◌,
  inl, inr, is_empty-keep, sym, arith, ◌∙◌, keep-keep, ap, keep, Bool, true, ◌≡◌, refl, Option,
  none, some, List, [], ◌∷◌, String, ◌&&◌, any, is_empty, if◌then◌else◌,
}
use mathlib.Core.List.Memᴰ.{not-nil}
use mvirt.Resource.Node.{NodeData}
use mvirt.Resource.Vm.{VmSpec}
use mvirt.Scheduler.Largest.{
  memory_of, IsLastLargest, IsLargest, max_by_memory-IsLastLargest, max_by_memory-IsLargest,
}
use package.mvirt.Scheduler.{
  label, matches_label, max_by_memory, select_node, result_of, ok, err, select_candidates,
  ScheduleResult, Result, ◌>>=◌, ScheduleError, is_online, matches_selector,
  has_sufficient_resources, best_node, non_empty,
}

-- What the code asks of a node: it is online, the selector admits it, and it has the processors and
-- the memory. Its storage is not looked at.
abbrev pub has_label : NodeData → Option (String × String) → Bool
has_label n none = false
has_label n (some (key, value)) = opt_eq (label key n.labels) (some value)

-- A selector admits the node with that id, the nodes with that name, and those with the label that
-- it writes as `key=value`.
abbrev pub admits : String → NodeData → Bool
admits selector n = n.id == selector || (n.name == selector || has_label n (split_once 61 selector))

abbrev pub selected : Option String → NodeData → Bool
selected none n = true
selected (some selector) n = admits selector n

abbrev pub has_room : VmSpec → NodeData → Bool
has_room spec n =
    leb spec.cpu_cores n.resources.available_cpu_cores
    && leb spec.memory_mb n.resources.available_memory_mb

abbrev pub can_host : VmSpec → NodeData → Bool
can_host spec n = (is_online n.status && selected spec.node_selector n) && has_room spec n

-- Why no node can host the VM: the first requirement that no node meets along with those before.
abbrev pub why_selected : List NodeData → VmSpec → Option String → ScheduleError
why_selected nodes spec none = ScheduleError.insufficient_resources spec.cpu_cores spec.memory_mb
why_selected nodes spec (some selector) =
    if any (λ n. is_online n.status && admits selector n) nodes
    then ScheduleError.insufficient_resources spec.cpu_cores spec.memory_mb
    else ScheduleError.no_matching_nodes selector

abbrev pub why_not : List NodeData → VmSpec → ScheduleError
why_not nodes spec =
    if any (λ n. is_online n.status) nodes
    then why_selected nodes spec spec.node_selector
    else ScheduleError.no_nodes_available

matches_label_eq : (n : NodeData) (l : Option (String × String)) → matches_label n l ≡ has_label n l
unfolding matches_label
matches_label_eq n none = refl
matches_label_eq n (some (key, value)) = refl

matches_selector_eq :
    (n : NodeData) (selector : String) → matches_selector n selector ≡ admits selector n
unfolding matches_selector
matches_selector_eq n selector = ground (arith, matches_label_eq n (split_once 61 selector))

-- Two stages of the search become one.
stage :
    {B : Type 0} (xs : List NodeData) (e : ScheduleError) (h : List NodeData → List NodeData)
    (e' : List NodeData → ScheduleError) (k : NodeData → Result B)
    → h [] ≡ []
    → (non_empty xs e >>= λ o. best_node (h o) (e' o) >>= k)
      ≡ (best_node (h xs) (if is_empty xs then e else e' xs) >>= k)
unfolding best_node
stage [] e h e' k start = rw (start, best_node) refl
stage (n ∷ rest) e h e' k start = refl

which :
    (p : NodeData → Bool) (xs : List NodeData) (e e' : ScheduleError)
    → (if is_empty (keep p xs) then e else e') ≡ (if any p xs then e' else e)
which p xs e e' = ground (arith, is_empty-keep p xs)

module _ (nodes : List NodeData) (spec : VmSpec) where
  abbrev online : NodeData → Bool
  online n = is_online n.status

  abbrev fits : NodeData → Bool
  fits n = has_sufficient_resources n spec

  abbrev reply : NodeData → Result ScheduleResult
  reply best = ok (result_of best)

  abbrev too_small : ScheduleError
  too_small = ScheduleError.insufficient_resources spec.cpu_cores spec.memory_mb

  hosts :
      (sel : Option String)
      → keep fits (keep (selected sel) (keep online nodes))
        ≡ keep (λ n. (online n && selected sel n) && fits n) nodes
  hosts sel =
      ap (keep fits) (keep-keep (selected sel) online nodes)
      ∙ keep-keep fits (λ n. online n && selected sel n) nodes

  keep_all : (xs : List NodeData) → keep (λ _. true) xs ≡ xs
  unfolding keep
  keep_all [] = refl
  keep_all (x ∷ xs) = ap (λ l. x ∷ l) (keep_all xs)

  search_lem :
      (sel : Option String)
      → (non_empty (keep online nodes) ScheduleError.no_nodes_available >>= λ o.
          select_candidates o sel >>= λ c. best_node (keep fits c) too_small >>= reply)
        ≡ (best_node (keep (λ n. (online n && selected sel n) && fits n) nodes) (
              if any online nodes
              then why_selected nodes spec sel
              else ScheduleError.no_nodes_available)
            >>= reply)
  unfolding select_candidates keep
  search_lem none =
      stage (keep online nodes) ScheduleError.no_nodes_available (keep fits) (λ _. too_small) reply
        refl
      ∙ (λ i.
          best_node (all_hosts i) (which online nodes ScheduleError.no_nodes_available too_small i)
          >>= reply)
    where
      all_hosts :
          keep fits (keep online nodes) ≡ keep (λ n. (online n && selected none n) && fits n) nodes
      all_hosts = ap (keep fits) (sym (keep_all (keep online nodes))) ∙ hosts none
  search_lem (some s) =
      (λ i. non_empty (keep online nodes) ScheduleError.no_nodes_available >>= λ o.
      non_empty (keep (λ n. matches_selector_eq n s i) o) (ScheduleError.no_matching_nodes s)
      >>= λ c. best_node (keep fits c) too_small >>= reply)
      ∙ (λ i. non_empty (keep online nodes) ScheduleError.no_nodes_available >>= λ o.
          stage (keep admitted o) (ScheduleError.no_matching_nodes s) (keep fits) (λ _. too_small)
            reply refl i)
      ∙ stage (keep online nodes) ScheduleError.no_nodes_available
          (λ o. keep fits (keep admitted o))
          (λ o. if is_empty (keep admitted o) then ScheduleError.no_matching_nodes s else too_small)
          reply refl
      ∙ (λ i. best_node (hosts (some s) i) (reason i) >>= reply)
    where
      admitted : NodeData → Bool
      admitted n = admits s n

      reason :
          (if is_empty (keep online nodes)
            then ScheduleError.no_nodes_available
            else if is_empty (keep admitted (keep online nodes))
            then ScheduleError.no_matching_nodes s
            else too_small)
          ≡ (if any online nodes
              then why_selected nodes spec (some s)
              else ScheduleError.no_nodes_available)
      reason = ground (
        arith,
        is_empty-keep online nodes,
        is_empty-keep admitted (keep online nodes),
        any-keep online admitted nodes,
      )

  -- The scheduler's stages are one search.
  select_node-search : select_node nodes spec ≡ (
      best_node (keep (can_host spec) nodes) (why_not nodes spec) >>= λ best. ok (result_of best))
  unfolding select_node has_sufficient_resources
  select_node-search = search_lem spec.node_selector

module _ (nodes : List NodeData) (spec : VmSpec) where
  -- The scheduler selects, of the nodes that are online, that the selector admits (where there is
  -- one), and that have the processors and the memory, the last with the most memory. If there is
  -- no such node, the error names the first requirement that no node meets.
  pub select_node_lem :
      ((keep (can_host spec) nodes ≡ []) × (select_node nodes spec ≡ err (why_not nodes spec)))
      ⊎ ((n : NodeData) × IsLastLargest n (keep (can_host spec) nodes)
          × (select_node nodes spec ≡ ok (result_of n)))
  unfolding best_node
  select_node_lem = found (keep (can_host spec) nodes) (select_node-search nodes spec)
    where
      found :
          (hosts : List NodeData)
          → select_node nodes spec
            ≡ (best_node hosts (why_not nodes spec) >>= λ best. ok (result_of best))
          → ((hosts ≡ []) × (select_node nodes spec ≡ err (why_not nodes spec)))
            ⊎ ((n : NodeData) × IsLastLargest n hosts × (select_node nodes spec ≡ ok (result_of n)))
      found [] e = inl (refl, e)
      found (n ∷ rest) e = inr (max_by_memory n rest, max_by_memory-IsLastLargest n rest, e)

module _ (nodes : List NodeData) (spec : VmSpec) where
  best_of :
      (hosts : List NodeData) (e : ScheduleError) (r : ScheduleResult)
      → (best_node hosts e >>= λ best. ok (result_of best)) ≡ ok r
      → (n : NodeData) × IsLargest n hosts × (r ≡ result_of n)
  unfolding best_node
  best_of [] e r h = cc
  best_of (n ∷ rest) e r h =
      (max_by_memory n rest, max_by_memory-IsLargest n rest, ground (arith, h))

  -- A node that the scheduler selects is one of the nodes, is online, is admitted by the selector
  -- (where there is one), has the processors and the memory, and has as much available memory as
  -- every node of which the same is true.
  pub select_node-best :
      (r : ScheduleResult)
      → select_node nodes spec ≡ ok r
      → (n : NodeData) × Memᴰ n nodes
        × (r.node_id ≡ n.id)
        × (can_host spec n ≡ true)
        × ((m : NodeData) → Memᴰ m nodes → can_host spec m ≡ true → memory_of m ≤ memory_of n)
  select_node-best r h =
      let (n, (there, top), is_n) =
        best_of (keep (can_host spec) nodes) (why_not nodes spec) r
          (sym (select_node-search nodes spec) ∙ h) in
      let (listed, able) = keep_sound (can_host spec) nodes n there in
      (
        n,
        listed,
        ap (λ x. x.node_id) is_n,
        able,
        λ m listed_m able_m. top m (keep_complete (can_host spec) nodes m listed_m able_m),
      )

  -- The scheduler selects a node whenever some node is online, is admitted by the selector (where
  -- there is one), and has the processors and the memory.
  pub select_node-some :
      (n : NodeData)
      → Memᴰ n nodes
      → can_host spec n ≡ true
      → (r : ScheduleResult) × (select_node nodes spec ≡ ok r)
  unfolding best_node
  select_node-some n listed able =
      rw (select_node-search nodes spec)
        (found (keep (can_host spec) nodes) (keep_complete (can_host spec) nodes n listed able))
    where
      found :
          (hosts : List NodeData)
          → Memᴰ n hosts
          → (r : ScheduleResult) × ((best_node hosts (why_not nodes spec) >>= λ best.
                ok (result_of best))
              ≡ ok r)
      found [] there = absurd (not-nil there)
      found (m ∷ rest) there = (result_of (max_by_memory m rest), refl)
