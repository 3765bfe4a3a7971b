-- ===== src/Command/Network.antt =====
-- mvirt-cplane/src/command.rs: what the network commands carry.
use mvirt.Prelude.{String, Bool, Option, List}

pub record CreateNetwork : Type 0 where
  pub request_id : String
  pub id : String
  pub timestamp : String
  pub project_slug : String
  pub name : String
  pub ipv4_enabled : Bool
  pub ipv4_prefix : Option String
  pub ipv6_enabled : Bool
  pub ipv6_prefix : Option String
  pub dns_servers : List String
  pub ntp_servers : List String
  pub is_public : Bool

pub record UpdateNetwork : Type 0 where
  pub request_id : String
  pub id : String
  pub timestamp : String
  pub dns_servers : List String
  pub ntp_servers : List String

pub record DeleteNetwork : Type 0 where
  pub request_id : String
  pub id : String
  pub force : Bool
