-- ===== src/Invariant.antt =====
-- What holds of the tables of mvirt-cplane/src/state.rs from one command to the next, and of every
-- state that a history of commands reaches.
pub mod Templates
pub mod Networks
pub mod Names
pub mod Links
pub mod Groups
pub mod Monotone
pub mod Reach
