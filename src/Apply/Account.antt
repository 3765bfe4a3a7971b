-- ===== src/Apply/Account.antt =====
-- mvirt-cplane/src/state.rs: the handlers of the account, membership and API key commands.
mod Member
mod Login
mod Service
unfoldable pub use Member.*
unfoldable pub use Login.*
unfoldable pub use Service.*
