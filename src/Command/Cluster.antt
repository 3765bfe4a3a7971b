-- ===== src/Command/Cluster.antt =====
-- mvirt-cplane/src/command.rs: what the cluster commands carry.
use mvirt.Prelude.{String, Option}

pub record CreateCluster : Type 0 where
  pub request_id : String
  pub timestamp : String
  pub org_slug : String
  pub slug : String
  pub name : String
  pub description : Option String
  pub location : Option String

pub record UpdateCluster : Type 0 where
  pub request_id : String
  pub slug : String
  pub timestamp : String
  pub name : Option String
  pub description : Option (Option String)
  pub location : Option (Option String)

pub record DeleteCluster : Type 0 where
  pub request_id : String
  pub slug : String

pub record AddNodeToCluster : Type 0 where
  pub request_id : String
  pub timestamp : String
  pub cluster_slug : String
  pub node_id : String

pub record RemoveNodeFromCluster : Type 0 where
  pub request_id : String
  pub timestamp : String
  pub cluster_slug : String
  pub node_id : String
