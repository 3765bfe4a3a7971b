-- ===== src/Resource/Node.antt =====
-- mvirt-cplane/src/command.rs: the rows of nodes (the hypervisor hosts).
use mvirt.Prelude.{ℕ, String, Option, List}

pub data NodeStatus : Type 0 where
  online offline unknown onboarding revoked : NodeStatus

pub data RevocationReason : Type 0 where
  decommission compromise other : RevocationReason

pub record NodeResources : Type 0 where
  pub cpu_cores : ℕ
  pub memory_mb : ℕ
  pub storage_gb : ℕ
  pub available_cpu_cores : ℕ
  pub available_memory_mb : ℕ
  pub available_storage_gb : ℕ

pub record NodeData : Type 0 where
  pub id : String
  pub name : String
  pub address : String
  pub status : NodeStatus
  pub resources : NodeResources
  pub labels : List (String × String)
  pub last_heartbeat : String
  pub created_at : String
  pub updated_at : String
  pub cluster_slug : Option String
  pub cert_serial_hex : Option String
  pub cert_expires_at : Option String
  pub hostname : Option String
  pub agent_version : Option String
