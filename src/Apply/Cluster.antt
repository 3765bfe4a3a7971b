-- ===== src/Apply/Cluster.antt =====
-- mvirt-cplane/src/state.rs: the handlers of the cluster commands.
use mvirt.Prelude.{
  String, ◌<>◌, Bool, List, [], ◌∷◌, ◌++◌, ◌==◌, any, keep, length, nat_eq, unwrap_or, not,
  if◌then◌else◌,
}
use mvirt.Redb.{Redb}
use mvirt.Redb.Txn.{txn_get, txn_has, txn_put, txn_delete}
use mvirt.Resource.Org.{ClusterData}
use mvirt.Command.Cluster.{
  CreateCluster, UpdateCluster, DeleteCluster, AddNodeToCluster, RemoveNodeFromCluster,
}
use mvirt.Response.{Response}
use mvirt.State.{Tables}
use mvirt.Apply.Outcome.{Handler, done, ◌>>=◌, ◌>>◌, return_if, some_or}
use mvirt.Apply.Node.{node_not_found}
use mvirt.Apply.Org.{org_not_found}

abbrev pub cluster_not_found : String → Response
cluster_not_found slug = Response.error 404 ("Cluster '" <> slug <> "' not found")

-- `node_ids.iter().any(|n| n == node_id)`.
abbrev pub is_member : String → ClusterData → Bool
is_member node_id cluster = any (λ n. n == node_id) cluster.node_ids

abbrev pub drop_member : String → List String → List String
drop_member node_id = keep (λ n. not (n == node_id))

-- The list of members has changed its length.
abbrev pub length_changed : List String → List String → Bool
length_changed before after = not (nat_eq (length after) (length before))

module _ ⦃redb : Redb⦄ (db : Tables) where
  unfoldable pub apply_create_cluster : CreateCluster → Handler
  apply_create_cluster c = do
    return_if (txn_has db.clusters c.slug)
        (Response.error 409 ("Cluster with slug '" <> c.slug <> "' already exists"))
    return_if (not (txn_has db.orgs c.org_slug)) (org_not_found c.org_slug)
    let cluster : ClusterData = record {
      slug = c.slug;
      org_slug = c.org_slug;
      name = c.name;
      description = c.description;
      location = c.location;
      node_ids = [];
      created_at = c.timestamp;
      updated_at = c.timestamp;
    }
    done (record db { clusters = txn_put db.clusters c.slug cluster }, Response.cluster cluster, [])

  unfoldable pub apply_update_cluster : UpdateCluster → Handler
  apply_update_cluster c = do
    old ← some_or (txn_get db.clusters c.slug) (cluster_not_found c.slug)
    let cluster = record old {
      name = unwrap_or c.name old.name;
      description = unwrap_or c.description old.description;
      location = unwrap_or c.location old.location;
      updated_at = c.timestamp;
    }
    done (record db { clusters = txn_put db.clusters c.slug cluster }, Response.cluster cluster, [])

  unfoldable pub apply_delete_cluster : DeleteCluster → Handler
  apply_delete_cluster c = do
    return_if (not (txn_has db.clusters c.slug)) (cluster_not_found c.slug)
    done (record db { clusters = txn_delete db.clusters c.slug }, Response.deleted c.slug, [])

  unfoldable pub apply_add_node_to_cluster : AddNodeToCluster → Handler
  apply_add_node_to_cluster c = do
    cluster ← some_or (txn_get db.clusters c.cluster_slug) (cluster_not_found c.cluster_slug)
    return_if (not (txn_has db.nodes c.node_id)) (node_not_found c.node_id)
    let joined = record cluster {
      node_ids = cluster.node_ids ++ c.node_id ∷ [];
      updated_at = c.timestamp;
    }
    if is_member c.node_id cluster
        then done (db, Response.cluster cluster, [])
        else done (
          record db { clusters = txn_put db.clusters c.cluster_slug joined },
          Response.cluster joined,
          [],
        )

  unfoldable pub apply_remove_node_from_cluster : RemoveNodeFromCluster → Handler
  apply_remove_node_from_cluster c = do
    cluster ← some_or (txn_get db.clusters c.cluster_slug) (cluster_not_found c.cluster_slug)
    let rest = drop_member c.node_id cluster.node_ids
    let left = record cluster { node_ids = rest; updated_at = c.timestamp }
    if length_changed cluster.node_ids rest
        then done (
          record db { clusters = txn_put db.clusters c.cluster_slug left },
          Response.cluster left,
          [],
        )
        else done (db, Response.cluster (record cluster { node_ids = rest }), [])
