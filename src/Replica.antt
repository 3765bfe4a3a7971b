-- ===== src/Replica.antt =====
-- What applying a command takes from the replica that runs it and not from the log: its clock, its
-- random numbers, and the signing of a certificate by the crate `rcgen`, which
-- mvirt-cplane/src/ca.rs calls. `trim` and `to_lowercase` of the standard library, which go by the
-- Unicode tables, stand here too.
use mvirt.Prelude.{ℕ, String, List}
use mvirt.Resource.Onboarding.{InternalCa}

pub record SignedLeaf : Type 0 where
  pub cert_pem : String
  pub serial_hex : String
  pub not_after : String

pub data Signing : Type 0 where
  signed : SignedLeaf → Signing
  refused : String → Signing

pub record Replica : Type 0 where
  pub now : String
  pub new_serial : List ℕ
  pub sign_node_leaf : InternalCa → String → String → String → List ℕ → Signing
  pub trim : String → String
  pub to_lowercase : String → String
