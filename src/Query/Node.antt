-- ===== src/Query/Node.antt =====
-- mvirt-cplane/src/state.rs: the queries of `ApiState` over nodes.
use mvirt.Prelude.{ℕ, String, Option, List, ◌==◌, find, keep}
use mvirt.Redb.{Redb}
use mvirt.Redb.Txn.{read_get, read_list, read_count, read_keys}
use mvirt.Resource.Node.{NodeData}
use mvirt.State.{Tables}
use mvirt.Scheduler.{is_online}

module _ ⦃redb : Redb⦄ (db : Tables) where
  unfoldable pub get_node : String → Option NodeData
  get_node id = read_get db.nodes id

  unfoldable pub get_node_by_name : String → Option NodeData
  get_node_by_name name = find (λ x. x.name == name) (read_list db.nodes)

  unfoldable pub list_nodes : List NodeData
  list_nodes = read_list db.nodes

  unfoldable pub list_online_nodes : List NodeData
  list_online_nodes = keep (λ x. is_online x.status) (read_list db.nodes)

  unfoldable pub node_count : ℕ
  node_count = read_count db.nodes

  unfoldable pub node_ids : List String
  node_ids = read_keys db.nodes
