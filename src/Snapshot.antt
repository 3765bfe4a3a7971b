-- ===== src/Snapshot.antt =====
-- mvirt-cplane/src/state.rs: `StateMachine::snapshot`, `StateMachine::restore` and the envelope that
-- goes between them. A hash map is the list of its rows. The encoding is that of the crate `bincode`,
-- an interface with what its documentation says: what was written is read back, as the same maps.
pub mod Rows
pub mod Roundtrip
use mvirt.Prelude.{◌≡◌, ℕ, String, Option, none, some, List, [], ◌∷◌}
use mvirt.Redb.{Redb}
use mvirt.Redb.Txn.{Table, read_list_with_keys, txn_put}
use mvirt.Lru.{Lru}
use mvirt.Response.{Response}
use mvirt.State.{Tables, ApiState, init_tables, cache_capacity}
use mvirt.Resource.Node.{NodeData}
use mvirt.Resource.Network.{NetworkData, NicData}
use mvirt.Resource.Vm.{VmData}
use mvirt.Resource.Org.{OrgData, ProjectData}
use mvirt.Resource.Storage.{VolumeData, TemplateData}
use mvirt.Resource.SecurityGroup.{SecurityGroupData}
use Rows.{SameMap}

pub record SnapshotEnvelope : Type 0 where
  pub nodes : List (String × NodeData)
  pub networks : List (String × NetworkData)
  pub nics : List (String × NicData)
  pub vms : List (String × VmData)
  pub orgs : List (String × OrgData)
  pub projects : List (String × ProjectData)
  pub volumes : List (String × VolumeData)
  pub templates : List (String × TemplateData)
  pub security_groups : List (String × SecurityGroupData)

-- The same maps, whatever the order of their rows.
pub record SameEnvelope (a b : SnapshotEnvelope) : Type 0 where
  pub nodes : SameMap a.nodes b.nodes
  pub networks : SameMap a.networks b.networks
  pub nics : SameMap a.nics b.nics
  pub vms : SameMap a.vms b.vms
  pub orgs : SameMap a.orgs b.orgs
  pub projects : SameMap a.projects b.projects
  pub volumes : SameMap a.volumes b.volumes
  pub templates : SameMap a.templates b.templates
  pub security_groups : SameMap a.security_groups b.security_groups

pub record Bincode : Type 1 where
  pub Bytes : Type 0
  pub serialize : SnapshotEnvelope → Bytes
  pub deserialize : Bytes → Option SnapshotEnvelope
  pub deserialize-serialize :
      (e : SnapshotEnvelope)
      → (read : SnapshotEnvelope) × (deserialize (serialize e) ≡ some read) × SameEnvelope e read

module _ ⦃redb : Redb⦄ where
  abbrev pub envelope : Tables → SnapshotEnvelope
  envelope db = record {
    nodes = read_list_with_keys db.nodes;
    networks = read_list_with_keys db.networks;
    nics = read_list_with_keys db.nics;
    vms = read_list_with_keys db.vms;
    orgs = read_list_with_keys db.orgs;
    projects = read_list_with_keys db.projects;
    volumes = read_list_with_keys db.volumes;
    templates = read_list_with_keys db.templates;
    security_groups = read_list_with_keys db.security_groups;
  }

  -- `for (k, v) in rows { txn_put(&txn, TABLE, k, v) }`.
  unfoldable pub put_all : {V : Type 0} → Table V → List (String × V) → Table V
  put_all t [] = t
  put_all t ((k, v) ∷ rest) = put_all (txn_put t k v) rest

  -- Every table is dropped and made anew, then the envelope's rows are written.
  abbrev pub restored : SnapshotEnvelope → Tables
  restored e = record init_tables {
    nodes = put_all init_tables.nodes e.nodes;
    networks = put_all init_tables.networks e.networks;
    nics = put_all init_tables.nics e.nics;
    vms = put_all init_tables.vms e.vms;
    orgs = put_all init_tables.orgs e.orgs;
    projects = put_all init_tables.projects e.projects;
    volumes = put_all init_tables.volumes e.volumes;
    templates = put_all init_tables.templates e.templates;
    security_groups = put_all init_tables.security_groups e.security_groups;
  }

module _ ⦃redb : Redb⦄ ⦃lru : Lru⦄ ⦃bincode : Bincode⦄ where
  unfoldable pub snapshot : ApiState → bincode.Bytes
  snapshot s = bincode.serialize (envelope s.db)

  -- Nothing is what stands for a failed decoding, which leaves the state as it was.
  unfoldable pub restore : bincode.Bytes → Option ApiState
  restore bytes = elim (bincode.deserialize bytes) [
    | none ↦ none
    | some e ↦ some (record { db = restored e; applied_requests = lru.new Response cache_capacity })
  ]
