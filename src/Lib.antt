-- ===== src/Lib.antt =====
-- The control plane of mvirt (mvirt-cplane): the replicated state machine that every replica runs
-- over its embedded database, the store through which everything else calls it, the scheduler that
-- places virtual machines on nodes, and the check of API keys and roles. From the daemons on the
-- nodes: the routing tables of mvirt-net, the packet filter of mvirt-ebpf, and the addresses that
-- mvirt-one takes from router advertisements.
--
-- A client's request becomes a command (mvirt-cplane/src/command.rs), which the Raft log orders.
-- Each replica hands it to `apply` of mvirt-cplane/src/state.rs: a cache of answered requests comes
-- first, then the handler of the command, which reads and writes the tables in one transaction and
-- commits, or returns early and leaves them alone; an answer that was committed goes into the cache.
-- The response goes to the client, the events (mvirt-cplane/src/store/event.rs) to the reconcilers.
-- A replica that is far behind gets a snapshot in place of the log. The methods of `RaftStore`
-- (mvirt-cplane/src/store/raft_store.rs) build the commands, write them to Raft, and make a result
-- or an error of the responses; they read the local replica. The reconciler of VMs
-- (mvirt-cplane/src/reconciler/vm.rs) compares a VM's row with what its node reports, makes the node
-- take a step, and writes the status back through the store. The scheduler
-- (mvirt-cplane/src/scheduler.rs) reads the nodes and picks one for a VM; the check of an API key
-- (mvirt-cplane/src/auth.rs) reads accounts, keys and memberships.
--
-- On a node, the routing manager (mvirt-net/src/routing.rs) changes its own tables and sends each
-- change to all reactors, which keep copies and route packets by them (mvirt-net/src/reactor/mod.rs).
-- Two programs in the kernel (mvirt-ebpf/programs/src) see the packets that leave a NIC and those
-- that are meant for one; each has maps of its own for the rules and the connections.
--
-- Files.
--   Prelude: names of the libraries that the modules share, Boolean tests, lists, texts, u32.
--   Redb: the interface of the database. Below it, Txn has the helpers `txn_get`, `txn_put`,
--     `txn_list`, `txn_has`, `txn_delete` and `read_...` of state.rs, and Txn/Laws and Txn/Rows what
--     they do to one another; Keyed, Unique, Linked and Counted have the shapes of invariants that
--     several tables share; Memory is an implementation by a list of rows.
--   Lru: the interface of the cache, and in Bounded an implementation.
--   Resource: the rows of the tables. Command, and its children: what the commands carry, and the
--     type `Command` with `request_id`. Response: responses and events. (command.rs, event.rs)
--   State: the tables and `ApiState`, `with_db`, `init_tables`. (state.rs)
--   Replica: what `apply` takes from the machine that runs it: clock, random serial, signature.
--   Apply: `apply` with the `match` over the commands; in its children the handlers, one function
--     `apply_create_network` for `Command::CreateNetwork` and so on, and Mac for
--     `generate_mac_from_id`. Outcome is the control flow of a handler, Ensures the rules for what
--     holds if it commits, or that it commits. Run is a history of commands. Replay, Errors and
--     Agree are about `apply` as a whole, Answers about the kinds of its responses.
--   Query: the read-only queries of `ApiState`.
--   Invariant: what holds from command to command (Networks, Templates, Names, Links, Groups,
--     Monotone) and in every state that a history reaches (Reach).
--   Effect: what single commands, and pairs of them, achieve (Vm, Network, Onboarding, Account).
--   Snapshot: `snapshot` and `restore` with their envelope. (state.rs)
--   Scheduler: `select_node` and its parts; Largest is about the loop over the candidates, and
--     Placement holds the whole against a description.
--   Auth: the roles of a caller and the check of an API key (mvirt-cplane/src/auth.rs); Roles and
--     Keys are about these.
--   Store: the methods of `RaftStore`. Raft is the interface of mraft, and Call has
--     `write_command`, `send` for the match on a response, and `read`; Answer has the arms of the
--     matches. Request has the requests (store/traits.rs), Error the errors (store/error.rs), and the
--     children named for kinds of rows the methods on them. Write and Client name the methods, by
--     their arguments, as data. Expected, Answered and Schedule are about them.
--   Reconcile: Daemon has the clients of the nodes' daemons as an interface, Vm the reconciler
--     (reconciler/vm.rs). Says is about what it makes of a daemon's answers, Calm about a cluster on
--     which nobody else writes, Verdict about the row that it leaves.
--   Routing: Target, Table, Update and Manager for mvirt-net/src/routing.rs, Reactor for
--     mvirt-net/src/reactor/mod.rs; Step and System have the manager and its reactors at work,
--     InStep is about messages sent and taken, Agree holds the tables against each other, and ByList
--     is an implementation of the tries.
--   Firewall: Rule, Conn and Check for mvirt-ebpf/programs/src (lib.rs, tc_egress.rs,
--     tc_ingress.rs); History has the two programs at work. Scan, Admits, Replies, Bits and Cidr are
--     about them.
--   Slaac: mvirt-one/src/utils/network/slaac.rs, with `mac_to_eui64` of interface.rs; Ends is about
--     the parser.
--   Tests: a small control plane, and the theorems applied to it.
--
-- What stands for code that is not in the repository: the crates redb, lru, bincode, rcgen, mraft
-- and prefix_trie are interfaces (Redb, Lru, Bincode, Replica, Store/Raft, PrefixTrie), whose laws
-- are what their documentation says, as are the clients that the build generates for the daemons
-- (Reconcile/Daemon, which has no laws), the networks of the crate ipnet are a record, and the
-- hashes of the crates blake3 and sha2, the clock and the random ids are arguments. A table keeps
-- values, not their encoding, which the code decodes with `expect`. Iteration meets each entry once,
-- in an order that is left open. An
-- insertion into the cache may evict any other entry. Which key of its routing tables comes
-- first is a parameter of each copy, the manager's and each reactor's, as each has a hash map of its
-- own; it matters when the default table is deleted.
--
-- Bounds. Numbers are natural numbers; the counters `nic_count` and `clone_count` of type u32 wrap
-- at 2^32, as in a release build. The invariants on them are for fewer than 2^32 rows of a kind, of
-- which a command adds at most one. No definition needs fuel but the printing of a number, which
-- has more steps of fuel than the number has digits, and the loop over the options of a router
-- advertisement, which has more rounds of fuel than the packet has bytes, where a round takes at
-- least eight. The loop over the rules of a NIC has 256 rounds, as in the code. Addresses of packets
-- are lists of bytes. `compression_ratio` is a float of which only
-- 1.0 is ever written.
--
-- Not modelled: errors of the database itself, at which the code panics; the REST and gRPC layers
-- of the control plane, the verification of JWTs, the subscription to events and the reconcilers of
-- all but VMs;
-- of the daemons, the paths of packets through shared memory and the kernel, the DHCP and ARP
-- responders, hypervisors, storage and logs; the command line and the user interface.
pub mod Prelude
pub mod Redb
pub mod Lru
pub mod Resource
pub mod Command
pub mod Response
pub mod State
pub mod Replica
pub mod Apply
pub mod Query
pub mod Invariant
pub mod Effect
pub mod Snapshot
pub mod Scheduler
pub mod Auth
pub mod Store
pub mod Reconcile
pub mod Routing
pub mod Slaac
pub mod Firewall
pub mod Tests
