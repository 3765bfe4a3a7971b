-- ===== src/Effect/Network.antt =====
-- mvirt-cplane/src/state.rs: the deletion of a network with its NICs.
use mvirt.Prelude.{
  String, ◌≡◌, refl, true, false, not, none, some, arith, is_empty, ◌&&◌, ◌==◌, if◌then◌else◌,
  eq_refl,
}
use mvirt.Redb.{Redb}
use mvirt.Redb.Keyed.{IsKeyed}
use mvirt.Redb.Txn.{txn_get, txn_has}
use mvirt.Redb.Txn.Laws.{txn_get-txn_delete}
use mvirt.Redb.Txn.Rows.{txn_get-delete_rows-keep}
use mvirt.Command.Network.{DeleteNetwork}
use mvirt.State.{Tables}
use mvirt.Apply.Ensures.{Commits, Commits-done, Commits-return_if}
use mvirt.Apply.Network.{apply_delete_network, nics_in_network}

module _ ⦃redb : Redb⦄ (db : Tables) where
  -- Deleting a network that is there, by force or because it has no NICs, commits: the network is
  -- gone, its NICs are gone, every other NIC is as it was, and so are the security groups, provided
  -- that NICs stand under their ids.
  pub delete_network_lem :
      (c : DeleteNetwork)
      → IsKeyed (λ n. n.id) db.nics
      → txn_has db.networks c.id ≡ true
      → (not (is_empty (nics_in_network db c.id)) && not c.force) ≡ false
      → Commits
          (λ a.
            (txn_get a.0.networks c.id ≡ none)
            × ((k : String)
                → txn_get a.0.nics k ≡ (elim (txn_get db.nics k) [
                  | none ↦ none
                  | some n ↦ if n.spec.network_id == c.id then none else some n
                ]))
            × (a.0.security_groups ≡ db.security_groups))
          (apply_delete_network db c)
  unfolding apply_delete_network
  delete_network_lem c keyed there allowed = Commits-return_if _ _ _ allowed (
      Commits-return_if _ (not (txn_has db.networks c.id)) _ (ground (arith, there)) (
        Commits-done _ (
          ground (arith, txn_get-txn_delete db.networks c.id c.id, eq_refl c.id),
          (λ k.
              txn_get-delete_rows-keep (λ n. n.id) db.nics keyed (λ n. n.spec.network_id == c.id)
                k),
          refl,
        )))
