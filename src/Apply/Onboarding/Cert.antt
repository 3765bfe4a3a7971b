-- ===== src/Apply/Onboarding/Cert.antt =====
-- mvirt-cplane/src/state.rs: the handlers of the internal CA, the server certificate and revocation.
use mvirt.Prelude.{
  false, true, Bool, String, Option, none, some, List, [], ◌∷◌, ◌==◌, ◌&&◌, is_some, not,
  if◌then◌else◌,
}
use mvirt.Redb.{Redb}
use mvirt.Redb.Txn.{Table, txn_get, txn_list, txn_put, txn_delete}
use mvirt.Resource.Node.{NodeStatus, RevocationReason}
use mvirt.Resource.Org.{ClusterData}
use mvirt.Resource.Onboarding.{OnboardingTokenData, RevokedCertData, InternalCa, ServerCertData}
use mvirt.Command.Onboarding.{EnsureInternalCa, UpdateServerCert, RevokeNodeCert}
use mvirt.Response.{Response}
use mvirt.State.{Tables, PkiEntry, internal_ca, server_cert, pki_key_ca, pki_key_server}
use mvirt.Apply.Outcome.{Handler, done, ◌>>=◌, some_or}
use mvirt.Apply.Node.{node_not_found}
use mvirt.Apply.Cluster.{drop_member, length_changed}

abbrev pub ca_of : PkiEntry → Option InternalCa
ca_of (internal_ca ca) = some ca
ca_of (server_cert cert) = none

-- The two arms of the `match` over the reason.
abbrev pub is_decommission : RevocationReason → Bool
is_decommission RevocationReason.decommission = true
is_decommission RevocationReason.compromise = false
is_decommission RevocationReason.other = false

module _ ⦃redb : Redb⦄ where
  unfoldable pub find_ca : Table PkiEntry → Option InternalCa
  find_ca pki = elim (txn_get pki pki_key_ca) [ none ↦ none | some entry ↦ ca_of entry ]

  -- A node leaves one cluster, whose row is written only if it changes.
  unfoldable pub leave : Table ClusterData → ClusterData → String → Table ClusterData
  leave t cluster node_id =
      let rest = drop_member node_id cluster.node_ids in
      if length_changed cluster.node_ids rest
      then txn_put t cluster.slug (record cluster { node_ids = rest })
      else t

  -- The loop of a decommission over all clusters.
  unfoldable pub leave_all :
      Table ClusterData → List ClusterData → String → String → Table ClusterData
  leave_all t [] node_id timestamp = t
  leave_all t (cluster ∷ rest) node_id timestamp =
      leave_all (leave t (record cluster { updated_at = timestamp }) node_id) rest node_id timestamp

  -- The loop of a decommission over all tokens.
  unfoldable pub drop_tokens :
      Table OnboardingTokenData → List OnboardingTokenData → String → Table OnboardingTokenData
  drop_tokens t [] node_id = t
  drop_tokens t (token ∷ rest) node_id =
      drop_tokens
        (if token.node_id == node_id && not (is_some token.used_at)
          then txn_delete t token.id
          else t)
        rest node_id

  unfoldable pub record_revoked :
      Table RevokedCertData → Option String → RevokeNodeCert → Table RevokedCertData
  record_revoked t none c = t
  record_revoked t (some serial) c = txn_put t serial (record {
    serial_hex = serial;
    node_id = c.node_id;
    revoked_at = c.timestamp;
    reason = c.reason;
  })

module _ ⦃redb : Redb⦄ (db : Tables) where
  unfoldable pub apply_ensure_internal_ca : EnsureInternalCa → Handler
  apply_ensure_internal_ca c =
      if is_some (find_ca db.pki)
      then done (db, Response.ack, [])
      else done (record db { pki = txn_put db.pki pki_key_ca (internal_ca c.ca) }, Response.ack, [])

  unfoldable pub apply_update_server_cert : UpdateServerCert → Handler
  apply_update_server_cert c = do
    let cert : ServerCertData = record {
      cert_pem = c.cert_pem;
      key_pem = c.key_pem;
      serial_hex = c.serial_hex;
      not_after = c.not_after;
      created_at = c.timestamp;
    }
    done (record db { pki = txn_put db.pki pki_key_server (server_cert cert) }, Response.ack, [])

  unfoldable pub apply_revoke_node_cert : RevokeNodeCert → Handler
  apply_revoke_node_cert c = do
    node ← some_or (txn_get db.nodes c.node_id) (node_not_found c.node_id)
    let certs = record_revoked db.revoked_certs node.cert_serial_hex c
    let marked = record node { status = NodeStatus.revoked; updated_at = c.timestamp }
    if is_decommission c.reason
        then done (
          record db {
            revoked_certs = certs;
            onboarding_tokens =
                drop_tokens db.onboarding_tokens (txn_list db.onboarding_tokens) c.node_id;
            clusters = leave_all db.clusters (txn_list db.clusters) c.node_id c.timestamp;
            nodes = txn_delete db.nodes c.node_id;
          },
          Response.deleted c.node_id,
          [],
        )
        else done (
          record db { revoked_certs = certs; nodes = txn_put db.nodes c.node_id marked },
          Response.deleted c.node_id,
          [],
        )
