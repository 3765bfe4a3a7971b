-- ===== src/Resource.antt =====
-- mvirt-cplane/src/command.rs: the rows of the tables.
pub mod Node
pub mod Network
pub mod Vm
pub mod Org
pub mod Onboarding
pub mod Account
pub mod Storage
pub mod SecurityGroup
