-- ===== src/Invariant/Links/Targets.antt =====
-- When the row that a reference names is there.
use mvirt.Prelude.{eq_iff, false, true, is_some, not, String, ◌≡◌, some, arith}
use mvirt.Redb.{Redb}
use mvirt.Redb.Txn.{txn_has, Table, txn_get, txn_put}
use mvirt.Redb.Txn.Laws.{txn_get-txn_put}
use mvirt.Redb.Txn.Laws.{txn_has-txn_get}

module _ ⦃redb : Redb⦄ {V : Type 0} (t : Table V) where
  pub has_key :
      (k j : String) → not (txn_has t k) ≡ false → some k ≡ some j → is_some (txn_get t j) ≡ true
  has_key k j h e = ground (arith, txn_has-txn_get t k, e)

  pub found_key :
      {v : V} (k j : String) → txn_get t k ≡ some v → some k ≡ some j → is_some (txn_get t j) ≡ true
  found_key k j h e = ground (arith, h, e)

  pub put_key :
      (k j : String) (v : V) → some k ≡ some j → is_some (txn_get (txn_put t k v) j) ≡ true
  put_key k j v e = ground (arith, e, txn_get-txn_put t k j v, eq_iff k j)
