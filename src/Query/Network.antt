-- ===== src/Query/Network.antt =====
-- mvirt-cplane/src/state.rs: the queries of `ApiState` over networks, NICs and security groups.
use mvirt.Prelude.{ℕ, String, Option, none, some, List, ◌==◌, find, keep, opt_eq}
use mvirt.Redb.{Redb}
use mvirt.Redb.Txn.{read_get, read_list, read_count, read_keys}
use mvirt.Resource.Network.{NetworkData, NicData}
use mvirt.Resource.SecurityGroup.{SecurityGroupData}
use mvirt.State.{Tables}

module _ ⦃redb : Redb⦄ (db : Tables) where
  unfoldable pub get_network : String → Option NetworkData
  get_network id = read_get db.networks id

  unfoldable pub get_network_by_name : String → Option NetworkData
  get_network_by_name name = find (λ x. x.name == name) (read_list db.networks)

  unfoldable pub list_networks : List NetworkData
  list_networks = read_list db.networks

  unfoldable pub list_networks_by_project : String → List NetworkData
  list_networks_by_project project_slug =
      keep (λ x. x.project_slug == project_slug) (read_list db.networks)

  unfoldable pub network_count : ℕ
  network_count = read_count db.networks

  unfoldable pub network_ids : List String
  network_ids = read_keys db.networks

  unfoldable pub get_nic : String → Option NicData
  get_nic id = read_get db.nics id

  unfoldable pub get_nic_by_name : String → Option NicData
  get_nic_by_name name = find (λ x. opt_eq x.spec.name (some name)) (read_list db.nics)

  unfoldable pub list_nics : Option String → List NicData
  list_nics none = read_list db.nics
  list_nics (some id) = keep (λ x. x.spec.network_id == id) (read_list db.nics)

  unfoldable pub list_nics_by_project : String → List NicData
  list_nics_by_project project_slug =
      keep (λ x. x.spec.project_slug == project_slug) (read_list db.nics)

  unfoldable pub nic_count : ℕ
  nic_count = read_count db.nics

  unfoldable pub nic_ids : List String
  nic_ids = read_keys db.nics

  unfoldable pub get_security_group : String → Option SecurityGroupData
  get_security_group id = read_get db.security_groups id

  unfoldable pub list_security_groups : List SecurityGroupData
  list_security_groups = read_list db.security_groups

  unfoldable pub list_security_groups_by_project : String → List SecurityGroupData
  list_security_groups_by_project project_slug =
      keep (λ x. x.project_slug == project_slug) (read_list db.security_groups)

  unfoldable pub security_group_count : ℕ
  security_group_count = read_count db.security_groups

  unfoldable pub security_group_ids : List String
  security_group_ids = read_keys db.security_groups
