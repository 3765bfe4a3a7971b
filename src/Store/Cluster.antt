-- ===== src/Store/Cluster.antt =====
-- mvirt-cplane/src/store/raft_store.rs: the methods of the store for clusters.
use mvirt.Prelude.{String, Option, List, [], ◌∷◌}
use mvirt.Redb.{Redb}
use mvirt.Lru.{Lru}
use mvirt.Query
use mvirt.Command.{Command}
use mvirt.Resource.Org.{ClusterData}
use mvirt.Store.Error.StoreError.{not_found, conflict}
use mvirt.Store.Request.{CreateClusterRequest, UpdateClusterRequest}
use mvirt.Store.Raft.{Raft}
use mvirt.Store.Call.{Fresh, Store, read, send, reply}
use mvirt.Store.Answer.{as_cluster, as_deleted}

unfoldable pub create_cluster_command : Fresh → CreateClusterRequest → Command
create_cluster_command f req = Command.create_cluster (record {
  request_id = f.request_id;
  timestamp = f.now;
  org_slug = req.org_slug;
  slug = req.slug;
  name = req.name;
  description = req.description;
  location = req.location;
})

unfoldable pub update_cluster_command : Fresh → String → UpdateClusterRequest → Command
update_cluster_command f slug req = Command.update_cluster (record {
  request_id = f.request_id;
  slug = slug;
  timestamp = f.now;
  name = req.name;
  description = req.description;
  location = req.location;
})

unfoldable pub add_node_to_cluster_command : Fresh → String → String → Command
add_node_to_cluster_command f cluster_slug node_id = Command.add_node_to_cluster (record {
  request_id = f.request_id;
  timestamp = f.now;
  cluster_slug = cluster_slug;
  node_id = node_id;
})

unfoldable pub remove_node_from_cluster_command : Fresh → String → String → Command
remove_node_from_cluster_command f cluster_slug node_id = Command.remove_node_from_cluster (record {
  request_id = f.request_id;
  timestamp = f.now;
  cluster_slug = cluster_slug;
  node_id = node_id;
})

unfoldable pub delete_cluster_command : Fresh → String → Command
delete_cluster_command f slug =
    Command.delete_cluster (record { request_id = f.request_id; slug = slug })

module _ ⦃redb : Redb⦄ ⦃lru : Lru⦄ ⦃raft : Raft⦄ where
  unfoldable pub list_clusters : Store (List ClusterData)
  unfolding read
  list_clusters = read (λ db. Query.Org.list_clusters db)

  unfoldable pub list_clusters_by_org : String → Store (List ClusterData)
  unfolding read
  list_clusters_by_org org_slug = read (λ db. Query.Org.list_clusters_by_org db org_slug)

  unfoldable pub get_cluster : String → Store (Option ClusterData)
  unfolding read
  get_cluster slug = read (λ db. Query.Org.get_cluster db slug)

  unfoldable pub create_cluster : Fresh → CreateClusterRequest → Store ClusterData
  create_cluster f req =
      send (create_cluster_command f req)
        (reply as_cluster ((404, not_found) ∷ (409, conflict) ∷ []))

  unfoldable pub update_cluster : Fresh → String → UpdateClusterRequest → Store ClusterData
  update_cluster f slug req =
      send (update_cluster_command f slug req) (reply as_cluster ((404, not_found) ∷ []))

  unfoldable pub delete_cluster : Fresh → String → Store (Unit {0})
  delete_cluster f slug =
      send (delete_cluster_command f slug)
        (reply as_deleted ((404, not_found) ∷ (409, conflict) ∷ []))

  unfoldable pub add_node_to_cluster : Fresh → String → String → Store ClusterData
  add_node_to_cluster f cluster_slug node_id =
      send (add_node_to_cluster_command f cluster_slug node_id)
        (reply as_cluster ((404, not_found) ∷ []))

  unfoldable pub remove_node_from_cluster : Fresh → String → String → Store ClusterData
  remove_node_from_cluster f cluster_slug node_id =
      send (remove_node_from_cluster_command f cluster_slug node_id)
        (reply as_cluster ((404, not_found) ∷ []))
