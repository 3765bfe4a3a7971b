-- ===== src/Resource/Onboarding.antt =====
-- mvirt-cplane/src/command.rs: the rows of onboarding tokens and certificates.
use mvirt.Prelude.{String, Option}
use mvirt.Resource.Node.{RevocationReason}

pub record OnboardingTokenData : Type 0 where
  pub id : String
  pub token_hash_hex : String
  pub cluster_slug : String
  pub node_id : String
  pub hostname : String
  pub description : Option String
  pub expires_at : String
  pub used_at : Option String
  pub used_by_node_id : Option String
  pub created_by_account : String
  pub created_at : String

pub record RevokedCertData : Type 0 where
  pub serial_hex : String
  pub node_id : String
  pub revoked_at : String
  pub reason : RevocationReason

pub record ServerCertData : Type 0 where
  pub cert_pem : String
  pub key_pem : String
  pub serial_hex : String
  pub not_after : String
  pub created_at : String

pub record InternalCa : Type 0 where
  pub ca_cert_pem : String
  pub ca_key_pem : String
  pub created_at : String
