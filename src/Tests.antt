-- ===== src/Tests.antt =====
-- A small control plane on the in-memory database, and the theorems of the other modules applied to it.
pub mod Sample
mod Replay
mod Invariant
mod Effect
mod Snapshot
mod Scheduler
mod Query
mod Onboarding
mod Auth
mod Store
mod Reconcile
mod Routing
mod Slaac
mod Firewall
