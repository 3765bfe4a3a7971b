-- ===== src/Snapshot/Roundtrip.antt =====
-- A state that goes through a snapshot.
use mvirt.Prelude.{String, ◌≡◌, refl, none, some, List, [], ◌∷◌, arith, eq_iff}
use mvirt.Redb.{Redb, lookup, Distinct}
use mvirt.Redb.Txn.{Table, txn_get, read_list_with_keys, txn_put}
use mvirt.Redb.Txn.Laws.{
  txn_get-txn_put, txn_get-new, lookup-read_list_with_keys, read_list_with_keys-Distinct,
}
use mvirt.Lru.{Lru}
use mvirt.Response.{Response}
use mvirt.State.{Tables, ApiState, init_tables, cache_capacity}
use package.mvirt.Snapshot.{
  SnapshotEnvelope, SameEnvelope, Bincode, envelope, put_all, restored, snapshot, restore,
}
use mvirt.Snapshot.Rows.{SameMap}

module _ ⦃redb : Redb⦄ {V : Type 0} where
  txn_get-put_all :
      (t : Table V) (rows : List (String × V)) (k : String)
      → Distinct rows
      → txn_get (put_all t rows) k ≡ (elim (lookup k rows) [ none ↦ txn_get t k | some v ↦ some v ])
  unfolding put_all lookup
  txn_get-put_all t [] k d = refl
  txn_get-put_all t ((j, v) ∷ rest) k d =
      ground (
        arith,
        txn_get-put_all (txn_put t j v) rest k d.1,
        txn_get-txn_put t j k v,
        eq_iff j k,
        d.0,
      )

  -- What the rows of one table, read back, give when they are written to a new table.
  put_all_read :
      (t : Table V) (rows : List (String × V)) (k : String)
      → SameMap (read_list_with_keys t) rows
      → txn_get (put_all (redb.new V) rows) k ≡ txn_get t k
  put_all_read t rows k h = ground (
    arith,
    txn_get-put_all (redb.new V) rows k (h.distinct (read_list_with_keys-Distinct t)),
    h.same k,
    lookup-read_list_with_keys t k,
    txn_get-new {V = V} k,
  )

module _ ⦃redb : Redb⦄ where
  -- Nine tables are as they were. The other seven are empty.
  pub record IsRestored (before after : Tables) : Type 0 where
    pub nodes : (k : String) → txn_get after.nodes k ≡ txn_get before.nodes k
    pub networks : (k : String) → txn_get after.networks k ≡ txn_get before.networks k
    pub nics : (k : String) → txn_get after.nics k ≡ txn_get before.nics k
    pub vms : (k : String) → txn_get after.vms k ≡ txn_get before.vms k
    pub orgs : (k : String) → txn_get after.orgs k ≡ txn_get before.orgs k
    pub projects : (k : String) → txn_get after.projects k ≡ txn_get before.projects k
    pub volumes : (k : String) → txn_get after.volumes k ≡ txn_get before.volumes k
    pub templates : (k : String) → txn_get after.templates k ≡ txn_get before.templates k
    pub security_groups :
        (k : String) → txn_get after.security_groups k ≡ txn_get before.security_groups k
    pub clusters : (k : String) → txn_get after.clusters k ≡ none
    pub onboarding_tokens : (k : String) → txn_get after.onboarding_tokens k ≡ none
    pub revoked_certs : (k : String) → txn_get after.revoked_certs k ≡ none
    pub accounts : (k : String) → txn_get after.accounts k ≡ none
    pub memberships : (k : String) → txn_get after.memberships k ≡ none
    pub api_keys : (k : String) → txn_get after.api_keys k ≡ none
    pub pki : (k : String) → txn_get after.pki k ≡ none

  restored-IsRestored :
      (db : Tables) (e : SnapshotEnvelope)
      → SameEnvelope (envelope db) e
      → IsRestored db (restored e)
  unfolding init_tables
  restored-IsRestored db e h = record {
    nodes = λ k. put_all_read db.nodes e.nodes k h.nodes;
    networks = λ k. put_all_read db.networks e.networks k h.networks;
    nics = λ k. put_all_read db.nics e.nics k h.nics;
    vms = λ k. put_all_read db.vms e.vms k h.vms;
    orgs = λ k. put_all_read db.orgs e.orgs k h.orgs;
    projects = λ k. put_all_read db.projects e.projects k h.projects;
    volumes = λ k. put_all_read db.volumes e.volumes k h.volumes;
    templates = λ k. put_all_read db.templates e.templates k h.templates;
    security_groups = λ k. put_all_read db.security_groups e.security_groups k h.security_groups;
    clusters = λ k. txn_get-new k;
    onboarding_tokens = λ k. txn_get-new k;
    revoked_certs = λ k. txn_get-new k;
    accounts = λ k. txn_get-new k;
    memberships = λ k. txn_get-new k;
    api_keys = λ k. txn_get-new k;
    pki = λ k. txn_get-new k;
  }

module _ ⦃redb : Redb⦄ ⦃lru : Lru⦄ ⦃bincode : Bincode⦄ where
  -- Restoring the snapshot of a state succeeds. Nodes, networks, NICs, VMs, organizations,
  -- projects, volumes, templates and security groups are those of the state. Clusters, onboarding
  -- tokens, revoked certificates, accounts, memberships, API keys and the PKI are all gone, and
  -- no request is in the cache.
  pub restore-snapshot :
      (s : ApiState)
      → (r : ApiState) × (restore (snapshot s) ≡ some r)
        × IsRestored s.db r.db
        × ((id : String) → lru.peek Response r.applied_requests id ≡ none)
  unfolding restore snapshot
  restore-snapshot s =
      let (e, read, same) = bincode.deserialize-serialize (envelope s.db) in
      (
        record { db = restored e; applied_requests = lru.new Response cache_capacity },
        rw (read, restore) refl,
        restored-IsRestored s.db e same,
        λ id. lru.peek-new Response cache_capacity id,
      )
