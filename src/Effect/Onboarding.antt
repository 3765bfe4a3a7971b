-- ===== src/Effect/Onboarding.antt =====
-- mvirt-cplane/src/state.rs: what redeeming a token and revoking a certificate achieve.
use mvirt.Prelude.{if◌then◌else◌, String, ◌≡◌, true, none, some, arith, eq_refl, is_some, ◌≢◌}
use mvirt.Redb.{Redb}
use mvirt.Redb.Txn.{Table, txn_get, txn_put}
use mvirt.Redb.Txn.Laws.{txn_get-txn_put, txn_get-txn_delete, txn_has-txn_get}
use mvirt.Replica.{Replica}
use mvirt.Resource.Node.{NodeStatus, NodeData}
use mvirt.Resource.Onboarding.{OnboardingTokenData, RevokedCertData}
use mvirt.Command.{Command}
use mvirt.Lru.{Lru}
use mvirt.Command.Onboarding.{RevokeNodeCert}
use mvirt.State.{Tables}
use mvirt.Apply.Ensures.{Ensures, Commits, Commits-some_or, Commits-if, Commits-done}
use mvirt.Apply.Onboarding.{apply_revoke_node_cert, record_revoked, is_decommission}
use mvirt.Invariant.Monotone.{IsRevoked}

module _ ⦃redb : Redb⦄ where
  -- Two tokens with the same hash are the same token.
  pub record HasUniqueHashes (t : Table OnboardingTokenData) : Type 0 where
    pub at :
        (k j : String) (v w : OnboardingTokenData)
        → txn_get t k ≡ some v
        → txn_get t j ≡ some w
        → v.token_hash_hex ≡ w.token_hash_hex
        → k ≡ j

  pub put-IsRevoked_self :
      (t : Table RevokedCertData) (k : String) (v : RevokedCertData) → IsRevoked (txn_put t k v) k
  put-IsRevoked_self t k v = record {
    revoked = ground (arith, eq_refl k, txn_get-txn_put t k k v, txn_has-txn_get (txn_put t k v) k);
  }

  -- Every token with a hash is redeemed.
  pub record IsSpent (hash : String) (t : Table OnboardingTokenData) : Type 0 where
    pub at :
        (k : String) (v : OnboardingTokenData)
        → txn_get t k ≡ some v
        → v.token_hash_hex ≡ hash
        → is_some v.used_at ≡ true

-- A command that makes no token with a hash.
abbrev pub LeavesHash : String → Command → Type 0
LeavesHash hash (Command.create_onboarding_token c) = c.token_hash_hex ≢ hash
LeavesHash hash _ = Unit {0}

module _ ⦃redb : Redb⦄ (db : Tables) where
  recorded :
      (c : RevokeNodeCert) (node : NodeData) (serial : String)
      → node.cert_serial_hex ≡ some serial
      → IsRevoked (record_revoked db.revoked_certs node.cert_serial_hex c) serial
  unfolding record_revoked
  recorded c node serial has = rw has (put-IsRevoked_self db.revoked_certs serial _)

  -- The row of a node that stays, with a revoked certificate.
  abbrev marked : RevokeNodeCert → NodeData → NodeData
  marked c node = record node { status = NodeStatus.revoked; updated_at = c.timestamp }

  -- Revoking the certificate of a node that has one commits, leaves its serial among the revoked
  -- ones, and takes the node out (a decommission) or marks it as revoked (any other reason).
  pub revoke_node_cert_lem :
      (c : RevokeNodeCert) (node : NodeData) (serial : String)
      → txn_get db.nodes c.node_id ≡ some node
      → node.cert_serial_hex ≡ some serial
      → Commits
          (λ a.
            IsRevoked a.0.revoked_certs serial
            × (txn_get a.0.nodes c.node_id
                ≡ (if is_decommission c.reason then none else some (marked c node))))
          (apply_revoke_node_cert db c)
  unfolding apply_revoke_node_cert
  revoke_node_cert_lem c node serial found has =
      Commits-some_or _ (txn_get db.nodes c.node_id) _ node found (
        Commits-if (is_decommission c.reason) _ _
          (λ gone. Commits-done _ (
            recorded c node serial has,
            ground
                (arith, gone, txn_get-txn_delete db.nodes c.node_id c.node_id, eq_refl c.node_id),
          ))
          (λ stays. Commits-done _ (
            recorded c node serial has,
            ground (
              arith,
              stays,
              txn_get-txn_put db.nodes c.node_id c.node_id (marked c node),
              eq_refl c.node_id,
            ),
          )))
