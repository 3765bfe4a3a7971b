-- ===== src/Query/Org.antt =====
-- mvirt-cplane/src/state.rs: the queries of `ApiState` over organizations, projects and clusters.
use mvirt.Prelude.{ℕ, String, Option, List, ◌==◌, any, keep}
use mvirt.Redb.{Redb}
use mvirt.Redb.Txn.{read_get, read_list, read_count, read_keys}
use mvirt.Resource.Org.{OrgData, ProjectData, ClusterData}
use mvirt.State.{Tables}

module _ ⦃redb : Redb⦄ (db : Tables) where
  unfoldable pub get_org : String → Option OrgData
  get_org id = read_get db.orgs id

  unfoldable pub list_orgs : List OrgData
  list_orgs = read_list db.orgs

  unfoldable pub org_count : ℕ
  org_count = read_count db.orgs

  unfoldable pub org_slugs : List String
  org_slugs = read_keys db.orgs

  unfoldable pub get_project : String → Option ProjectData
  get_project id = read_get db.projects id

  unfoldable pub list_projects : List ProjectData
  list_projects = read_list db.projects

  unfoldable pub list_projects_by_org : String → List ProjectData
  list_projects_by_org org_slug = keep (λ x. x.org_slug == org_slug) (read_list db.projects)

  unfoldable pub get_cluster : String → Option ClusterData
  get_cluster id = read_get db.clusters id

  unfoldable pub list_clusters : List ClusterData
  list_clusters = read_list db.clusters

  unfoldable pub list_clusters_by_org : String → List ClusterData
  list_clusters_by_org org_slug = keep (λ x. x.org_slug == org_slug) (read_list db.clusters)

  unfoldable pub list_clusters_with_node : String → List ClusterData
  list_clusters_with_node node_id =
      keep (λ x. any (λ n. n == node_id) x.node_ids) (read_list db.clusters)
