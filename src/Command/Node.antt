-- ===== src/Command/Node.antt =====
-- mvirt-cplane/src/command.rs: what the node commands carry.
use mvirt.Prelude.{String, Option, List}
use mvirt.Resource.Node.{NodeResources, NodeStatus}

pub record RegisterNode : Type 0 where
  pub request_id : String
  pub id : String
  pub timestamp : String
  pub name : String
  pub address : String
  pub resources : NodeResources
  pub labels : List (String × String)

pub record UpdateNodeStatus : Type 0 where
  pub request_id : String
  pub node_id : String
  pub timestamp : String
  pub status : NodeStatus
  pub resources : Option NodeResources

pub record DeregisterNode : Type 0 where
  pub request_id : String
  pub node_id : String
