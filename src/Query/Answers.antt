-- ===== src/Query/Answers.antt =====
-- What the queries answer in the states that a history of commands reaches.
use mvirt.Redb.Txn.Laws.{txn_has-txn_get}
use mvirt.Response.{Response}
use mvirt.Command.Onboarding.{RevokeNodeCert}
use mvirt.Resource.Node.{NodeData}
use mvirt.State.{ApiState}
use mvirt.Apply.{apply, execute}
use mvirt.Apply.Replay.{apply_fresh}
use mvirt.Invariant.Monotone.{IsRevoked, run-IsRevoked}
use mvirt.Effect.Onboarding.{revoke_node_cert_lem}
use mvirt.Prelude.{
  Bool, ℕ, String, ◌≡◌, sym, ◌∙◌, ◌<◌, ◌^◌, true, none, some, List, length, arith, eq_iff, ◌==◌,
  ◌&&◌, length-keep, find, Option-cases, inl, inr, eq_refl,
}
use mvirt.Redb.{Redb}
use mvirt.Redb.Txn.{txn_get, txn_list}
use mvirt.Redb.Txn.Laws.{read_list-txn_list, read_get-txn_get, find-txn_get, find-txn_list_missing}
use mvirt.Lru.{Lru}
use mvirt.Replica.{Replica}
use mvirt.Command.{Command, request_id}
use mvirt.Resource.Network.{NetworkData}
use mvirt.Resource.Storage.{VolumeData}
use mvirt.State.{Tables, with_db}
use mvirt.Apply.Run.{run}
use mvirt.Invariant.Reach.{IsConsistent, run-IsConsistent}
use mvirt.Query.Network.{get_network, list_nics}
use mvirt.Query.Storage.{get_volume, get_volume_by_name}
use mvirt.Query.Onboarding.{is_cert_revoked}

module _ ⦃redb : Redb⦄ (b : ℕ) (db : Tables) (h : IsConsistent b db) where
  count_nics :
      (id : String) (network : NetworkData)
      → get_network db id ≡ some network
      → length (list_nics db (some id)) ≡ network.nic_count
  unfolding get_network list_nics
  count_nics id network found = rw (read_list-txn_list db.nics) (
      length-keep (λ n. n.spec.network_id == id) (txn_list db.nics)
      ∙ sym (
          h.counts_nics.counted.counted id network (sym (read_get-txn_get db.networks id) ∙ found)))

  find_volume :
      (id : String) (volume : VolumeData)
      → get_volume db id ≡ some volume
      → get_volume_by_name db volume.spec.project_slug volume.spec.name ≡ some volume
  unfolding get_volume get_volume_by_name
  find_volume id volume found =
      let p : VolumeData → Bool =
        λ x. x.spec.project_slug == volume.spec.project_slug && x.spec.name == volume.spec.name in
      let at_id : txn_get db.volumes id ≡ some volume =
        sym (read_get-txn_get db.volumes id) ∙ found in
      rw (read_list-txn_list db.volumes) (elim (Option-cases (find p (txn_list db.volumes))) [
        | inl missed ↦ absurd (
            ground (
              arith,
              find-txn_list_missing p db.volumes id volume missed at_id,
              eq_refl volume.spec.project_slug,
              eq_refl volume.spec.name,
            ))
        | inr (met, at_met) ↦
            let (k, at_k, passes) = find-txn_get p db.volumes met at_met in
            ground (
              arith,
              at_met,
              at_k,
              at_id,
              h.unique_volumes.at k id met volume at_k at_id,
              eq_iff met.spec.project_slug volume.spec.project_slug,
              eq_iff met.spec.name volume.spec.name,
            )
      ])

module _ ⦃redb : Redb⦄ ⦃lru : Lru⦄ (cmds : List (Replica × Command))
    (fits : length cmds < 2 ^ 32) where
  -- In every state that a history of fewer than 2^32 commands reaches from the empty database,
  -- the counter of a network is the number of NICs that are listed for it.
  pub list_nics-nic_count :
      (id : String) (network : NetworkData)
      → get_network (run with_db cmds).db id ≡ some network
      → length (list_nics (run with_db cmds).db (some id)) ≡ network.nic_count
  list_nics-nic_count = count_nics (length cmds) (run with_db cmds).db (run-IsConsistent cmds fits)

  -- In every state that a history of fewer than 2^32 commands reaches from the empty database, a
  -- volume is found by its project and its name.
  pub get_volume_by_name-get_volume :
      (id : String) (volume : VolumeData)
      → get_volume (run with_db cmds).db id ≡ some volume
      → get_volume_by_name (run with_db cmds).db volume.spec.project_slug volume.spec.name
        ≡ some volume
  get_volume_by_name-get_volume =
      find_volume (length cmds) (run with_db cmds).db (run-IsConsistent cmds fits)

module _ ⦃redb : Redb⦄ ⦃lru : Lru⦄ where
  is_cert_revoked-IsRevoked :
      (db : Tables) (serial : String)
      → IsRevoked db.revoked_certs serial
      → is_cert_revoked db serial ≡ true
  unfolding is_cert_revoked
  is_cert_revoked-IsRevoked db serial h = ground (
    arith,
    h.revoked,
    read_get-txn_get db.revoked_certs serial,
    txn_has-txn_get db.revoked_certs serial,
  )

  -- When the certificate of a node that has one is revoked by a command that is not in the cache,
  -- its serial is reported as revoked, then and after any further commands (a snapshot that is
  -- restored in between is not a command).
  pub is_cert_revoked_forever :
      (replica : Replica) (s : ApiState) (c : RevokeNodeCert) (node : NodeData) (serial : String)
      (later : List (Replica × Command))
      → lru.peek Response s.applied_requests c.request_id ≡ none
      → txn_get s.db.nodes c.node_id ≡ some node
      → node.cert_serial_hex ≡ some serial
      → is_cert_revoked (run (apply replica s (Command.revoke_node_cert c)).state later).db serial
        ≡ true
  unfolding execute request_id
  is_cert_revoked_forever replica s c node serial later fresh found has =
      let k = revoke_node_cert_lem s.db c node serial found has in
      let first : IsRevoked (apply replica s (Command.revoke_node_cert c)).state.db.revoked_certs
          serial =
        rw (apply_fresh replica s (Command.revoke_node_cert c) fresh, k.is_done) k.holds.0 in
      is_cert_revoked-IsRevoked _ serial
        (run-IsRevoked (apply replica s (Command.revoke_node_cert c)).state later serial first)
