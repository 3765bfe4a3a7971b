-- ===== src/Effect.antt =====
-- What single commands of mvirt-cplane/src/state.rs achieve, and sequences of two.
pub mod Onboarding
pub mod Vm
pub mod Account
pub mod Network
