-- ===== src/Invariant/Reach.antt =====
-- mvirt-cplane/src/state.rs: the states that a history of commands reaches from the empty tables
-- of `with_db`. Each command of the history may be applied by another replica, with its own clock,
-- random numbers and signatures.
use mvirt.Prelude.{ℕ, suc, ◌+◌, ◌<◌, ◌^◌, String, ◌≡◌, true, List, length, arith, some, Option}
use mvirt.Redb.{Redb}
use mvirt.Redb.Txn.{txn_get}
use mvirt.Redb.Txn.Laws.{count_if-zero, txn_get-new}
use mvirt.Redb.Keyed.{IsKeyed}
use mvirt.Redb.Counted.{IsCounted}
use mvirt.Redb.Linked.{IsLinked}
use mvirt.Redb.Unique.{HasUniqueNames}
use mvirt.Lru.{Lru}
use mvirt.Replica.{Replica}
use mvirt.Command.{Command}
use mvirt.State.{Tables, init_tables, with_db}
use mvirt.Apply.{execute}
use mvirt.Apply.Ensures.{Ensures}
use mvirt.Apply.Run.{run, run_induction}
use mvirt.Invariant.Networks.{CountsNics, CountsNics-more, execute-CountsNics}
use mvirt.Invariant.Templates.{CountsClones, CountsClones-more, execute-CountsClones}
use mvirt.Invariant.Names.{
  UniqueNetworks, UniqueVms, UniqueVolumes, execute-UniqueNetworks, execute-UniqueVms,
  execute-UniqueVolumes,
}
use mvirt.Invariant.Links.{
  ProjectsLinked, MembershipsOwned, KeysOwned, execute-ProjectsLinked, execute-MembershipsOwned,
  execute-KeysOwned,
}
use mvirt.Invariant.Groups.{GroupsLinked, execute-GroupsLinked}

module _ ⦃redb : Redb⦄ where
  -- Nothing is in a new table.
  new_empty : {V : Type 0} {A : Type 0} (k : String) (v : V) → txn_get (redb.new V) k ≡ some v → A
  new_empty {V} k v at_k = absurd (ground (arith, txn_get-new {V = V} k, at_k))

  new-IsCounted :
      {N W : Type 0} (ref : N → Option String) (counter : W → ℕ)
      → IsCounted ref counter 0 (redb.new W) (redb.new N)
  new-IsCounted {N} ref counter = record {
    linked = λ k n j at_k to. new_empty k n at_k;
    counted = λ j w at_j. new_empty j w at_j;
    bounded = omega (arith, count_if-zero (λ _. true) (redb.new N) λ k v at_k. new_empty k v at_k);
  }

  pub new-IsKeyed : {V : Type 0} (id_of : V → String) → IsKeyed id_of (redb.new V)
  new-IsKeyed id_of = record { at = λ k v at_k. new_empty k v at_k }

  new-HasUniqueNames :
      {V : Type 0} (scope name : V → String) → HasUniqueNames scope name (redb.new V)
  new-HasUniqueNames scope name = record { at = λ k j v w at_k at_j s n. new_empty k v at_k }

  new-IsLinked : {N W : Type 0} (ref : N → Option String) → IsLinked ref (redb.new W) (redb.new N)
  new-IsLinked ref = record { at = λ k n j at_k to. new_empty k n at_k }

  -- What holds of every state that is reached, with at most `b` rows of a kind.
  pub record IsConsistent (b : ℕ) (db : Tables) : Type 0 where
    pub counts_nics : CountsNics b db.networks db.nics
    pub counts_clones : CountsClones b db.templates db.volumes
    pub unique_networks : UniqueNetworks db.networks
    pub unique_vms : UniqueVms db.vms
    pub unique_volumes : UniqueVolumes db.volumes
    pub projects_linked : ProjectsLinked db.orgs db.projects
    pub groups_linked : GroupsLinked db.security_groups db.nics
    pub memberships_owned : MembershipsOwned db.accounts db.memberships
    pub keys_owned : KeysOwned db.accounts db.api_keys

  init_tables-IsConsistent : IsConsistent 0 init_tables
  unfolding init_tables
  init_tables-IsConsistent = record {
    counts_nics = record { keyed = new-IsKeyed _; counted = new-IsCounted _ _ };
    counts_clones = record { keyed = new-IsKeyed _; counted = new-IsCounted _ _ };
    unique_networks = new-HasUniqueNames _ _;
    unique_vms = new-HasUniqueNames _ _;
    unique_volumes = new-HasUniqueNames _ _;
    projects_linked = new-IsLinked _;
    groups_linked = new-IsLinked _;
    memberships_owned = record { keyed = new-IsKeyed _; linked = new-IsLinked _ };
    keys_owned = record { keyed = new-IsKeyed _; linked = new-IsLinked _ };
  }

  IsConsistent-more : (b : ℕ) (db : Tables) → IsConsistent b db → IsConsistent (suc b) db
  IsConsistent-more b db h = record {
    counts_nics = CountsNics-more b _ _ h.counts_nics;
    counts_clones = CountsClones-more b _ _ h.counts_clones;
    unique_networks = h.unique_networks;
    unique_vms = h.unique_vms;
    unique_volumes = h.unique_volumes;
    projects_linked = h.projects_linked;
    groups_linked = h.groups_linked;
    memberships_owned = h.memberships_owned;
    keys_owned = h.keys_owned;
  }

  execute-IsConsistent :
      (replica : Replica) (b : ℕ) (db : Tables) (cmd : Command)
      → suc b < 2 ^ 32
      → IsConsistent b db
      → Ensures (λ a. IsConsistent (suc b) a.0) (execute replica db cmd)
  execute-IsConsistent replica b db cmd fits h = record {
    at = λ a e. record {
      counts_nics = (execute-CountsNics replica b db cmd fits h.counts_nics).at a e;
      counts_clones = (execute-CountsClones replica b db cmd fits h.counts_clones).at a e;
      unique_networks = (execute-UniqueNetworks replica db cmd h.unique_networks).at a e;
      unique_vms = (execute-UniqueVms replica db cmd h.unique_vms).at a e;
      unique_volumes = (execute-UniqueVolumes replica db cmd h.unique_volumes).at a e;
      projects_linked = (execute-ProjectsLinked replica db cmd h.projects_linked).at a e;
      groups_linked = (execute-GroupsLinked replica db cmd h.groups_linked).at a e;
      memberships_owned = (execute-MembershipsOwned replica db cmd h.memberships_owned).at a e;
      keys_owned = (execute-KeysOwned replica db cmd h.keys_owned).at a e;
    };
  }

module _ ⦃redb : Redb⦄ ⦃lru : Lru⦄ where
  -- After any history of fewer than 2^32 commands, begun on the empty database, each network and
  -- each template counts its rows exactly, network, VM and volume names are unique in their
  -- project, and these rows are there: the network of each NIC and the security group that it names,
  -- the template that a volume was cloned from, the organization of each project, and the account
  -- of each membership and of each API key.
  pub run-IsConsistent :
      (cmds : List (Replica × Command))
      → length cmds < 2 ^ 32
      → IsConsistent (length cmds) (run with_db cmds).db
  unfolding with_db
  run-IsConsistent cmds fits =
      let e : length cmds ≡ 0 + length cmds = omega arith in
      rw e (
        run_induction IsConsistent-more execute-IsConsistent 0 with_db cmds (omega arith)
          init_tables-IsConsistent)
