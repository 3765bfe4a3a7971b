-- ===== src/Apply/Node.antt =====
-- mvirt-cplane/src/state.rs: the handlers of the node commands.
use mvirt.Prelude.{String, ◌<>◌, none, [], ◌∷◌, ◌==◌, any, unwrap_or, not}
use mvirt.Redb.{Redb}
use mvirt.Redb.Txn.{txn_get, txn_has, txn_list, txn_put, txn_delete}
use mvirt.Resource.Node.{NodeData, NodeStatus}
use mvirt.Command.Node.{RegisterNode, UpdateNodeStatus, DeregisterNode}
use mvirt.Response.{Response, Event}
use mvirt.State.{Tables}
use mvirt.Apply.Outcome.{Handler, done, ◌>>=◌, ◌>>◌, return_if, some_or, return_existing}

abbrev pub node_not_found : String → Response
node_not_found id = Response.error 404 ("Node '" <> id <> "' not found")

abbrev pub new_node : RegisterNode → NodeData
new_node c = record {
  id = c.id;
  name = c.name;
  address = c.address;
  status = NodeStatus.online;
  resources = c.resources;
  labels = c.labels;
  last_heartbeat = c.timestamp;
  created_at = c.timestamp;
  updated_at = c.timestamp;
  cluster_slug = none;
  cert_serial_hex = none;
  cert_expires_at = none;
  hostname = none;
  agent_version = none;
}

module _ ⦃redb : Redb⦄ (db : Tables) where
  unfoldable pub apply_register_node : RegisterNode → Handler
  apply_register_node c = do
    return_if (any (λ n. n.name == c.name) (txn_list db.nodes))
        (Response.error 409 ("Node with name '" <> c.name <> "' already exists"))
    return_existing (txn_get db.nodes c.id) Response.node
    let node = new_node c
    done (
      record db { nodes = txn_put db.nodes c.id node },
      Response.node node,
      Event.node_registered node ∷ [],
    )

  unfoldable pub apply_update_node_status : UpdateNodeStatus → Handler
  apply_update_node_status c = do
    old_node ← some_or (txn_get db.nodes c.node_id) (node_not_found c.node_id)
    let new_node = record old_node {
      status = c.status;
      resources = unwrap_or c.resources old_node.resources;
      last_heartbeat = c.timestamp;
      updated_at = c.timestamp;
    }
    done (
      record db { nodes = txn_put db.nodes c.node_id new_node },
      Response.node new_node,
      Event.node_updated c.node_id old_node new_node ∷ [],
    )

  unfoldable pub apply_deregister_node : DeregisterNode → Handler
  apply_deregister_node c = do
    return_if (not (txn_has db.nodes c.node_id)) (node_not_found c.node_id)
    done (
      record db { nodes = txn_delete db.nodes c.node_id },
      Response.deleted c.node_id,
      Event.node_deregistered c.node_id ∷ [],
    )
