-- ===== src/Reconcile.antt =====
-- mvirt-cplane/src/reconciler: how the control plane brings the nodes to what its rows ask for.
pub mod Daemon
pub mod Vm
pub mod Says
pub mod Calm
pub mod Verdict
