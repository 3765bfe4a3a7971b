-- ===== src/Store/Raft.antt =====
-- The crate `mraft`, which mvirt-cplane/src/store/raft_store.rs calls, as an interface: a cluster
-- with a log of commands, of which this node has applied a part.
use mvirt.Prelude.{ℕ, String, Option, List, ◌≡◌}
use mvirt.Redb.{Redb}
use mvirt.Lru.{Lru}
use mvirt.Replica.{Replica}
use mvirt.Response.{Response}
use mvirt.Command.{Command}
use mvirt.State.{ApiState}
use mvirt.Apply.{apply}
use mvirt.Apply.Run.{run}

-- The result of `write_or_forward`; an error goes by its text.
pub data Written : Type 0 where
  answered : Response → Written
  failed : String → Written

pub record RaftMetrics : Type 0 where
  pub current_leader : Option ℕ
  pub current_term : ℕ
  pub last_applied : Option ℕ

-- The members with their addresses, and which of them vote and which only listen.
pub record RaftMembership : Type 0 where
  pub nodes : List (ℕ × String)
  pub voters : List ℕ
  pub learners : List ℕ

pub data JoinError : Type 0 where
  not_leader : JoinError
  no_cluster_secret : JoinError
  not_member : ℕ → JoinError
  other : String → JoinError

pub data Joined (A : Type 0) : Type 0 where
  joined : A → Joined A
  refused : JoinError → Joined A

module _ ⦃redb : Redb⦄ ⦃lru : Lru⦄ where
  -- `log_state` is what all committed commands make of the database, `get_state` what this node
  -- has applied of them. Before a command is committed, others may be: `others`. `applier` is the
  -- replica whose answer comes back. An answered command is in the log, a failed one may be.
  pub record Raft : Type 1 where
    pub Cluster : Type 0
    pub log_state : Cluster → ApiState
    pub get_state : Cluster → ApiState
    pub others : Command → Cluster → List (Replica × Command)
    pub applier : Command → Cluster → Replica
    pub write_or_forward : Command → Cluster → Written × Cluster
    pub metrics : Cluster → RaftMetrics
    pub get_membership : Cluster → RaftMembership
    pub create_join_token : ℕ → ℕ → Cluster → Joined String × Cluster
    pub remove_node : ℕ → Cluster → Joined (Unit {0}) × Cluster
    pub join_error_text : JoinError → String
    pub answered_lem :
        (cmd : Command) (c : Cluster) (r : Response)
        → (write_or_forward cmd c).0 ≡ answered r
        → (r ≡ (apply (applier cmd c) (run (log_state c) (others cmd c)) cmd).response)
          × (log_state (write_or_forward cmd c).1
              ≡ (apply (applier cmd c) (run (log_state c) (others cmd c)) cmd).state)
    pub failed_lem :
        (cmd : Command) (c : Cluster) (text : String)
        → (write_or_forward cmd c).0 ≡ failed text
        → (cmds : List (Replica × Command)) × (log_state (write_or_forward cmd c).1
            ≡ run (log_state c) cmds)
    pub log-create_join_token :
        (peer ttl : ℕ) (c : Cluster) → log_state (create_join_token peer ttl c).1 ≡ log_state c
    pub log-remove_node : (peer : ℕ) (c : Cluster) → log_state (remove_node peer c).1 ≡ log_state c

  -- The state on which a command that is written is run.
  abbrev pub commit_point : ⦃raft : Raft⦄ → Command → raft.Cluster → ApiState
  commit_point ⦃raft⦄ cmd c = run (raft.log_state c) (raft.others cmd c)
