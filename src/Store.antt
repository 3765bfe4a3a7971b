-- ===== src/Store.antt =====
-- mvirt-cplane/src/store: the methods by which the servers of the control plane read the
-- replicated state and write commands to it.
pub mod Error
pub mod Request
pub mod Raft
pub mod Call
pub mod Answer
pub mod Node
pub mod Network
pub mod Nic
pub mod Vm
pub mod Org
pub mod Cluster
pub mod Volume
pub mod Template
pub mod SecurityGroup
pub mod Onboarding
pub mod Account
pub mod Service
pub mod Controlplane
pub mod Write
pub mod Client
pub mod Expected
pub mod Answered
pub mod Schedule
