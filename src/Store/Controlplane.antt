-- ===== src/Store/Controlplane.antt =====
-- mvirt-cplane/src/store/raft_store.rs: the methods of the store for the Raft cluster itself.
use mvirt.Prelude.{
  ℕ, String, false, none, some, ◌<>◌, any, nat_eq, map, decimal, if◌then◌else◌, unwrap_or,
}
use mvirt.Redb.{Redb}
use mvirt.Lru.{Lru}
use mvirt.Store.Error.{StoreError, Result, ok, err}
use mvirt.Store.Request.{ControlplaneInfo, Membership, MembershipPeer}
use mvirt.Store.Raft.{Raft, RaftMetrics, RaftMembership, JoinError, Joined, joined, refused}
use mvirt.Store.Call.{Store}

unfoldable pub info : ℕ → RaftMetrics → ControlplaneInfo
info node_id metrics = record {
  cluster_id = "mvirt-cluster";
  leader_id = metrics.current_leader;
  current_term = metrics.current_term;
  commit_index = unwrap_or metrics.last_applied 0;
  peer_id = node_id;
  is_leader = elim metrics.current_leader [ none ↦ false | some leader ↦ nat_eq leader node_id ];
}

unfoldable pub peer : RaftMembership → ℕ × String → MembershipPeer
peer membership (id, address) = record {
  id = id;
  address = address;
  role =
      if any (nat_eq id) membership.voters
      then "voter"
      else if any (nat_eq id) membership.learners
      then "learner"
      else "unknown";
}

unfoldable pub membership_of : RaftMembership → Membership
unfolding peer
membership_of membership = record {
  voters = membership.voters;
  learners = membership.learners;
  peers = map (peer membership) membership.nodes;
}

-- The two `map_err`: of a refused token, and of a refused removal.
unfoldable pub token_error : (JoinError → String) → JoinError → StoreError
token_error text JoinError.not_leader = StoreError.not_leader none
token_error text JoinError.no_cluster_secret = StoreError.internal "Cluster secret not configured"
token_error text (JoinError.not_member n) = StoreError.internal (text (JoinError.not_member n))
token_error text (JoinError.other e) = StoreError.internal (text (JoinError.other e))

unfoldable pub remove_error : (JoinError → String) → ℕ → JoinError → StoreError
remove_error text peer_id JoinError.not_leader = StoreError.not_leader none
remove_error text peer_id (JoinError.not_member n) =
    StoreError.not_found ("Peer " <> decimal peer_id <> " not found")
remove_error text peer_id JoinError.no_cluster_secret =
    StoreError.internal (text JoinError.no_cluster_secret)
remove_error text peer_id (JoinError.other e) = StoreError.internal (text (JoinError.other e))

abbrev pub or_error : {A : Type 0} → (JoinError → StoreError) → Joined A → Result A
or_error f (joined a) = ok a
or_error f (refused e) = err (f e)

module _ ⦃redb : Redb⦄ ⦃lru : Lru⦄ ⦃raft : Raft⦄ where
  unfoldable pub get_controlplane_info : ℕ → Store ControlplaneInfo
  unfolding info
  get_controlplane_info node_id c = (ok (info node_id (raft.metrics c)), c)

  unfoldable pub get_membership : Store Membership
  unfolding membership_of
  get_membership c = (ok (membership_of (raft.get_membership c)), c)

  unfoldable pub create_join_token : ℕ → ℕ → Store String
  unfolding token_error
  create_join_token peer_id valid_for_secs c =
      let (answer, c') = raft.create_join_token peer_id valid_for_secs c in
      (or_error (token_error raft.join_error_text) answer, c')

  unfoldable pub remove_peer : ℕ → Store (Unit {0})
  unfolding remove_error
  remove_peer peer_id c =
      let (answer, c') = raft.remove_node peer_id c in
      (or_error (remove_error raft.join_error_text peer_id) answer, c')
