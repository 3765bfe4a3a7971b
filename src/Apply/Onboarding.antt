-- ===== src/Apply/Onboarding.antt =====
-- mvirt-cplane/src/state.rs: the handlers of the onboarding and certificate commands.
mod Cert
mod Token
unfoldable pub use Cert.*
unfoldable pub use Token.*
