-- ===== src/Routing.antt =====
-- mvirt-net/src/routing.rs: the routing tables of the network daemon, and the manager that keeps
-- the copies of all reactors alike. The crate `prefix_trie` is the interface `PrefixTrie`.
pub mod Target
pub mod Table
pub mod Update
pub mod Manager
pub mod Reactor
pub mod Step
pub mod System
pub mod InStep
pub mod Agree
pub mod ByList
