-- ===== src/Invariant/Monotone.antt =====
-- mvirt-cplane/src/state.rs: revoked certificates and the sizes of volumes, from command to command.
use mvirt.Prelude.{List, false, eq_iff, true, ℕ, ◌≤◌, ltb, String, ◌≡◌, Option, none, some, arith}
use mvirt.Redb.{Redb}
use mvirt.Redb.Txn.{txn_delete, Table, txn_get, txn_put}
use mvirt.Replica.{Replica}
use mvirt.State.{Tables, ApiState}
use mvirt.Lru.{Lru}
use mvirt.Apply.Run.{run, run_keeps}
use native.Mathlib.Nat.{le_refl}
use mvirt.Command.{Command}
use mvirt.Apply.{execute}
use mvirt.Apply.Ensures.{Ensures, ensures_rules, guard_rules, Ensures-bind}
use mvirt.Redb.Txn.Laws.{txn_get-txn_put, txn_get-txn_delete, txn_has-txn_get}
use mvirt.Redb.Txn.{txn_has}
use mvirt.Resource.Onboarding.{RevokedCertData}
use mvirt.Resource.Storage.{VolumeData}
use mvirt.Command.Onboarding.{RevokeNodeCert}
use mvirt.Apply.Onboarding.{record_revoked}
use mvirt.Apply.Onboarding.{apply_redeem_onboarding_token}
use mvirt.Apply.Account.{
  apply_create_account_by_email, apply_ensure_account_from_oidc,
  apply_bootstrap_initial_platform_admin,
}

module _ ⦃redb : Redb⦄ where
  -- `is_cert_revoked` of the state after a handler.
  pub record IsRevoked (t : Table RevokedCertData) (serial : String) : Type 0 where
    pub revoked : txn_has t serial ≡ true

  put-IsRevoked :
      (t : Table RevokedCertData) (k : String) (v : RevokedCertData) (serial : String)
      → IsRevoked t serial
      → IsRevoked (txn_put t k v) serial
  put-IsRevoked t k v serial h = record {
    revoked = ground (
      arith,
      h.revoked,
      txn_has-txn_get t serial,
      txn_get-txn_put t k serial v,
      txn_has-txn_get (txn_put t k v) serial,
    );
  }

  record_revoked-IsRevoked :
      (t : Table RevokedCertData) (o : Option String) (c : RevokeNodeCert) (serial : String)
      → IsRevoked t serial
      → IsRevoked (record_revoked t o c) serial
  unfolding record_revoked
  record_revoked-IsRevoked t none c serial h = h
  record_revoked-IsRevoked t (some s) c serial h = put-IsRevoked t s _ serial h

  pub record IsAtLeast (size : ℕ) (t : Table VolumeData) (k : String) : Type 0 where
    pub at : (v : VolumeData) → txn_get t k ≡ some v → size ≤ v.spec.size_bytes

  put_volume-IsAtLeast :
      (size : ℕ) (t : Table VolumeData) (k j : String) (v old : VolumeData)
      → IsAtLeast size t k
      → txn_get t j ≡ some old
      → old.spec.size_bytes ≤ v.spec.size_bytes
      → IsAtLeast size (txn_put t j v) k
  put_volume-IsAtLeast size t k j v old h found grown = record {
    at = λ w at_k. ground (arith, txn_get-txn_put t j k v, h.at w, h.at old, eq_iff j k, found);
  }

  delete_volume-IsAtLeast :
      (size : ℕ) (t : Table VolumeData) (k j : String)
      → IsAtLeast size t k
      → IsAtLeast size (txn_delete t j) k
  delete_volume-IsAtLeast size t k j h = record {
    at = λ w at_k. ground (arith, txn_get-txn_delete t j k, h.at w);
  }

  new_volume-IsAtLeast :
      (size : ℕ) (t : Table VolumeData) (k j : String) (v old : VolumeData)
      → txn_get t k ≡ some old
      → IsAtLeast size t k
      → txn_get t j ≡ none
      → IsAtLeast size (txn_put t j v) k
  new_volume-IsAtLeast size t k j v old there h gone = record {
    at = λ w at_k. ground (arith, txn_get-txn_put t j k v, h.at w, eq_iff j k, gone, there);
  }

  not_less : (a b : ℕ) → ltb a b ≡ false → b ≤ a
  not_less a b h = ground (arith, h)

module _ ⦃redb : Redb⦄ (replica : Replica) (db : Tables) where
  -- No command takes a serial out of the set of revoked certificates.
  pub execute-IsRevoked :
      (cmd : Command) (serial : String)
      → IsRevoked db.revoked_certs serial
      → Ensures (λ a. IsRevoked a.0.revoked_certs serial) (execute replica db cmd)
  unfolding execute apply_redeem_onboarding_token apply_create_account_by_email
      apply_ensure_account_from_oidc apply_bootstrap_initial_platform_admin
  execute-IsRevoked (Command.revoke_node_cert c) serial h =
      search (guard_rules, record_revoked-IsRevoked, h) depth 9
  execute-IsRevoked _ serial h = search (ensures_rules, h) depth 12

  keep-IsAtLeast :
      (cmd : Command) (k : String) (old : VolumeData)
      → txn_get db.volumes k ≡ some old
      → IsAtLeast old.spec.size_bytes db.volumes k
      → Ensures (λ a. IsAtLeast old.spec.size_bytes a.0.volumes k) (execute replica db cmd)
  unfolding execute apply_redeem_onboarding_token apply_create_account_by_email
      apply_ensure_account_from_oidc apply_bootstrap_initial_platform_admin
  keep-IsAtLeast (Command.create_volume c) k old there h =
      search (guard_rules, Ensures-bind, new_volume-IsAtLeast, h) depth 9
  keep-IsAtLeast (Command.delete_volume c) k old there h =
      search (guard_rules, delete_volume-IsAtLeast, h) depth 9
  keep-IsAtLeast (Command.update_volume_status c) k old there h =
      search (guard_rules, put_volume-IsAtLeast, le_refl, h) depth 9
  keep-IsAtLeast (Command.resize_volume c) k old there h =
      search (guard_rules, put_volume-IsAtLeast, not_less, h) depth 9
  keep-IsAtLeast (Command.create_snapshot c) k old there h =
      search (guard_rules, put_volume-IsAtLeast, le_refl, h) depth 9
  keep-IsAtLeast _ k old there h = search (ensures_rules, h) depth 12

  -- Whatever the command that commits, a volume that it leaves there is not smaller than before.
  pub execute-IsAtLeast :
      (cmd : Command) (k : String) (old : VolumeData)
      → txn_get db.volumes k ≡ some old
      → Ensures (λ a. IsAtLeast old.spec.size_bytes a.0.volumes k) (execute replica db cmd)
  execute-IsAtLeast cmd k old there =
      keep-IsAtLeast cmd k old there (record { at = λ v at_k. ground (arith, there) })

module _ ⦃redb : Redb⦄ ⦃lru : Lru⦄ where
  -- Once its serial is among the revoked certificates, it stays there, whatever commands follow.
  pub run-IsRevoked :
      (s : ApiState) (cmds : List (Replica × Command)) (serial : String)
      → IsRevoked s.db.revoked_certs serial
      → IsRevoked (run s cmds).db.revoked_certs serial
  run-IsRevoked s cmds serial =
      run_keeps {P = λ db. IsRevoked db.revoked_certs serial}
        (λ replica db cmd. execute-IsRevoked replica db cmd serial) s cmds
