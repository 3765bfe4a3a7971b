-- ===== src/Redb/Linked.antt =====
-- References from the rows of one table to those of another, and when their targets are there.
use mvirt.Prelude.{
  String, ◌≡◌, true, false, Option, some, List, arith, eq_iff, opt_eq, opt_eq_iff, is_some,
}
use package.mvirt.Redb.{Redb}
use package.mvirt.Redb.Txn.{Table, txn_get, txn_put, txn_delete, delete_rows}
use package.mvirt.Redb.Txn.Laws.{txn_get-txn_put, txn_get-txn_delete}
use package.mvirt.Redb.Txn.Rows.{txn_get-delete_rows}

module _ ⦃redb : Redb⦄ {N W : Type 0} (ref : N → Option String) where
  pub record IsLinked (ts : Table W) (ns : Table N) : Type 0 where
    pub at :
        (k : String) (n : N) (j : String)
        → txn_get ns k ≡ some n
        → ref n ≡ some j
        → is_some (txn_get ts j) ≡ true

  module _ {ts : Table W} {ns : Table N} (h : IsLinked ts ns) where
    pub IsLinked-put_target : (j : String) (w : W) → IsLinked (txn_put ts j w) ns
    IsLinked-put_target j w = record {
      at = λ k n i at_k to. ground (arith, txn_get-txn_put ts j i w, h.at k n i at_k to);
    }

    pub IsLinked-put_source :
        (k : String) (n : N)
        → ((j : String) → ref n ≡ some j → is_some (txn_get ts j) ≡ true)
        → IsLinked ts (txn_put ns k n)
    IsLinked-put_source k n good = record {
      at = λ i x j at_i to. ground (arith, txn_get-txn_put ns k i n, h.at i x j, good j);
    }

    -- A row may change in everything but its reference.
    pub IsLinked-change_source :
        (k : String) (n old : N)
        → txn_get ns k ≡ some old
        → ref n ≡ ref old
        → IsLinked ts (txn_put ns k n)
    IsLinked-change_source k n old found same =
        IsLinked-put_source k n λ j to. ground (arith, h.at k old j found)

    pub IsLinked-delete_source : (k : String) → IsLinked ts (txn_delete ns k)
    IsLinked-delete_source k = record {
      at = λ i x j at_i to. ground (arith, txn_get-txn_delete ns k i, h.at i x j);
    }

    pub IsLinked-delete_rows :
        (id_of : N → String) (rows : List N) → IsLinked ts (delete_rows id_of ns rows)
    IsLinked-delete_rows id_of rows = record {
      at = λ i x j at_i to. ground (arith, txn_get-delete_rows id_of ns rows i, h.at i x j);
    }

    -- A target may go when nothing refers to it.
    pub IsLinked-delete_target :
        (j : String)
        → ((k : String) (n : N) → txn_get ns k ≡ some n → opt_eq (ref n) (some j) ≡ false)
        → IsLinked (txn_delete ts j) ns
    IsLinked-delete_target j unused = record {
      at = λ k n i at_k to. ground (
        arith,
        txn_get-txn_delete ts j i,
        h.at k n i at_k to,
        unused k n at_k,
        opt_eq_iff (ref n) (some j),
        eq_iff j i,
      );
    }
