-- ===== src/Store/Node.antt =====
-- mvirt-cplane/src/store/raft_store.rs: the methods of the store for nodes.
use mvirt.Prelude.{String, Option, List, [], ◌∷◌}
use mvirt.Redb.{Redb}
use mvirt.Lru.{Lru}
use mvirt.Query
use mvirt.Command.{Command}
use mvirt.Resource.Node.{NodeData}
use mvirt.Store.Error.StoreError.{not_found, conflict}
use mvirt.Store.Request.{RegisterNodeRequest, UpdateNodeStatusRequest}
use mvirt.Store.Raft.{Raft}
use mvirt.Store.Call.{Fresh, Store, read, send, reply}
use mvirt.Store.Answer.{as_deleted, as_node}

unfoldable pub upsert_node_command : Fresh → String → RegisterNodeRequest → Command
upsert_node_command f id req = Command.register_node (record {
  request_id = f.request_id;
  id = id;
  timestamp = f.now;
  name = req.name;
  address = req.address;
  resources = req.resources;
  labels = req.labels;
})

unfoldable pub update_node_status_command : Fresh → String → UpdateNodeStatusRequest → Command
update_node_status_command f id req = Command.update_node_status (record {
  request_id = f.request_id;
  node_id = id;
  timestamp = f.now;
  status = req.status;
  resources = req.resources;
})

unfoldable pub deregister_node_command : Fresh → String → Command
deregister_node_command f id =
    Command.deregister_node (record { request_id = f.request_id; node_id = id })

module _ ⦃redb : Redb⦄ ⦃lru : Lru⦄ ⦃raft : Raft⦄ where
  unfoldable pub list_nodes : Store (List NodeData)
  unfolding read
  list_nodes = read (λ db. Query.Node.list_nodes db)

  unfoldable pub list_online_nodes : Store (List NodeData)
  unfolding read
  list_online_nodes = read (λ db. Query.Node.list_online_nodes db)

  unfoldable pub get_node : String → Store (Option NodeData)
  unfolding read
  get_node id = read (λ db. Query.Node.get_node db id)

  unfoldable pub get_node_by_name : String → Store (Option NodeData)
  unfolding read
  get_node_by_name name = read (λ db. Query.Node.get_node_by_name db name)

  unfoldable pub upsert_node : Fresh → String → RegisterNodeRequest → Store NodeData
  upsert_node f id req = send (upsert_node_command f id req) (reply as_node ((409, conflict) ∷ []))

  unfoldable pub update_node_status : Fresh → String → UpdateNodeStatusRequest → Store NodeData
  update_node_status f id req =
      send (update_node_status_command f id req) (reply as_node ((404, not_found) ∷ []))

  unfoldable pub deregister_node : Fresh → String → Store (Unit {0})
  deregister_node f id =
      send (deregister_node_command f id) (reply as_deleted ((404, not_found) ∷ []))

  unfoldable pub register_node : Fresh → RegisterNodeRequest → Store NodeData
  unfolding upsert_node
  register_node f req = upsert_node f f.uuid req
