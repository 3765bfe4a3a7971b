-- ===== src/Resource/Network.antt =====
-- mvirt-cplane/src/command.rs: the rows of networks and their NICs.
use mvirt.Prelude.{ℕ, String, Bool, Option, List}

pub record NetworkData : Type 0 where
  pub id : String
  pub project_slug : String
  pub name : String
  pub ipv4_enabled : Bool
  pub ipv4_prefix : Option String
  pub ipv6_enabled : Bool
  pub ipv6_prefix : Option String
  pub dns_servers : List String
  pub ntp_servers : List String
  pub is_public : Bool
  pub nic_count : ℕ
  pub created_at : String
  pub updated_at : String

pub data NicPhase : Type 0 where
  pending active failed : NicPhase

pub record NicSpec : Type 0 where
  pub project_slug : String
  pub name : Option String
  pub network_id : String
  pub mac_address : String
  pub ipv4_address : Option String
  pub ipv6_address : Option String
  pub routed_ipv4_prefixes : List String
  pub routed_ipv6_prefixes : List String
  pub security_group_id : Option String
  pub vm_id : Option String

pub record NicStatus : Type 0 where
  pub phase : NicPhase
  pub socket_path : String
  pub message : Option String

pub record NicData : Type 0 where
  pub id : String
  pub spec : NicSpec
  pub status : NicStatus
  pub created_at : String
  pub updated_at : String
