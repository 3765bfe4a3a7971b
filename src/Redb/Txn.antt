-- ===== src/Redb/Txn.antt =====
-- The helpers of mvirt-cplane/src/state.rs over one table, inside a transaction or a read of it.
pub mod Laws
pub mod Rows
use mvirt.Prelude.{[], ◌∷◌, ◌∷◌, ℕ, String, Bool, Option, List, length, is_some, map}
use package.mvirt.Redb.{Redb, values}

abbrev pub Table : ⦃redb : Redb⦄ → Type 0 → Type 0
Table ⦃redb⦄ V = redb.Table V

module _ ⦃redb : Redb⦄ {V : Type 0} where
  unfoldable pub read_get : redb.Table V → String → Option V
  read_get t key = redb.get V t key

  unfoldable pub read_list : redb.Table V → List V
  read_list t = values (redb.iter V t)

  unfoldable pub read_list_with_keys : redb.Table V → List (String × V)
  read_list_with_keys t = redb.iter V t

  unfoldable pub read_keys : redb.Table V → List String
  read_keys t = map (λ row. row.0) (redb.iter V t)

  unfoldable pub read_count : redb.Table V → ℕ
  read_count t = length (redb.iter V t)

  unfoldable pub txn_get : redb.Table V → String → Option V
  txn_get t key = redb.get V t key

  unfoldable pub txn_has : redb.Table V → String → Bool
  txn_has t key = is_some (redb.get V t key)

  unfoldable pub txn_list : redb.Table V → List V
  txn_list t = values (redb.iter V t)

  unfoldable pub txn_put : redb.Table V → String → V → redb.Table V
  txn_put t key val = redb.insert V t key val

  unfoldable pub txn_delete : redb.Table V → String → redb.Table V
  txn_delete t key = redb.remove V t key

  -- `for row in rows { txn_delete(&txn, TABLE, &row.id) }`.
  unfoldable pub delete_rows : (V → String) → redb.Table V → List V → redb.Table V
  delete_rows id_of t [] = t
  delete_rows id_of t (row ∷ rest) = delete_rows id_of (txn_delete t (id_of row)) rest
