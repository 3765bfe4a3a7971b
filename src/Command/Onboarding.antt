-- ===== src/Command/Onboarding.antt =====
-- mvirt-cplane/src/command.rs: what the onboarding commands carry.
use mvirt.Prelude.{String, Option}
use mvirt.Resource.Node.{RevocationReason}
use mvirt.Resource.Onboarding.{InternalCa}

pub record EnsureInternalCa : Type 0 where
  pub request_id : String
  pub timestamp : String
  pub ca : InternalCa

pub record UpdateServerCert : Type 0 where
  pub request_id : String
  pub timestamp : String
  pub cert_pem : String
  pub key_pem : String
  pub serial_hex : String
  pub not_after : String

pub record CreateOnboardingToken : Type 0 where
  pub request_id : String
  pub timestamp : String
  pub id : String
  pub token_hash_hex : String
  pub cluster_slug : String
  pub node_id : String
  pub hostname : String
  pub description : Option String
  pub expires_at : String
  pub created_by_account : String

pub record DeleteOnboardingToken : Type 0 where
  pub request_id : String
  pub cluster_slug : String
  pub id : String

pub record RedeemOnboardingToken : Type 0 where
  pub request_id : String
  pub timestamp : String
  pub token_hash_hex : String
  pub csr_pem : String
  pub hostname : String
  pub agent_version : String
  pub kernel_version : String
  pub arch : String

pub record RevokeNodeCert : Type 0 where
  pub request_id : String
  pub timestamp : String
  pub node_id : String
  pub reason : RevocationReason
