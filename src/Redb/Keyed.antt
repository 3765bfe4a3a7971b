-- ===== src/Redb/Keyed.antt =====
-- Rows that stand under their own id.
use mvirt.Prelude.{String, ◌≡◌, some, arith, eq_iff}
use package.mvirt.Redb.{Redb}
use package.mvirt.Redb.Txn.{Table, txn_get, txn_put, txn_delete}
use package.mvirt.Redb.Txn.Laws.{txn_get-txn_put, txn_get-txn_delete}

module _ ⦃redb : Redb⦄ {V : Type 0} (id_of : V → String) where
  pub record IsKeyed (t : Table V) : Type 0 where
    pub at : (k : String) (v : V) → txn_get t k ≡ some v → id_of v ≡ k

  pub put-IsKeyed :
      (t : Table V) (k : String) (v : V) → id_of v ≡ k → IsKeyed t → IsKeyed (txn_put t k v)
  put-IsKeyed t k v same h = record {
    at = λ j w at_j. ground (arith, txn_get-txn_put t k j v, h.at j w, eq_iff k j);
  }

  pub delete-IsKeyed : (t : Table V) (k : String) → IsKeyed t → IsKeyed (txn_delete t k)
  delete-IsKeyed t k h = record {
    at = λ j w at_j. ground (arith, txn_get-txn_delete t k j, h.at j w);
  }
