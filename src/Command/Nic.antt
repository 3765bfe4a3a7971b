-- ===== src/Command/Nic.antt =====
-- mvirt-cplane/src/command.rs: what the nic commands carry.
use mvirt.Prelude.{String, Option, List}
use mvirt.Resource.Network.{NicPhase}

pub record CreateNic : Type 0 where
  pub request_id : String
  pub id : String
  pub timestamp : String
  pub project_slug : String
  pub network_id : String
  pub name : Option String
  pub mac_address : Option String
  pub ipv4_address : Option String
  pub ipv6_address : Option String
  pub routed_ipv4_prefixes : List String
  pub routed_ipv6_prefixes : List String
  pub security_group_id : Option String

pub record UpdateNic : Type 0 where
  pub request_id : String
  pub id : String
  pub timestamp : String
  pub routed_ipv4_prefixes : List String
  pub routed_ipv6_prefixes : List String

pub record DeleteNic : Type 0 where
  pub request_id : String
  pub id : String

pub record AttachNic : Type 0 where
  pub request_id : String
  pub id : String
  pub timestamp : String
  pub vm_id : String

pub record DetachNic : Type 0 where
  pub request_id : String
  pub id : String
  pub timestamp : String

pub record UpdateNicStatus : Type 0 where
  pub request_id : String
  pub id : String
  pub timestamp : String
  pub phase : NicPhase
  pub socket_path : String
  pub message : Option String
