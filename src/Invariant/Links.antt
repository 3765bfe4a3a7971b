-- ===== src/Invariant/Links.antt =====
-- mvirt-cplane/src/state.rs: references from one table to another, from a project to its organization
-- and from a membership or an API key to its account.
mod Targets
mod Projects
mod Owners
pub use Projects.{ProjectsLinked, execute-ProjectsLinked}
pub use Owners.{AreOwned, MembershipsOwned, KeysOwned, execute-MembershipsOwned, execute-KeysOwned}
