-- ===== src/Query.antt =====
-- mvirt-cplane/src/state.rs: the read-only queries of `ApiState`, each on the tables of one read
-- transaction.
pub mod Node
pub mod Network
pub mod Vm
pub mod Org
pub mod Onboarding
pub mod Account
pub mod Storage
pub mod Answers
