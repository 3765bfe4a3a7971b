-- ===== src/Redb/Unique.antt =====
-- Rows that are told apart by a pair of names, such as a project and a name in it.
use mvirt.Prelude.{String, ◌≡◌, Bool, false, some, arith, eq_iff, ◌==◌, ◌&&◌, any}
use package.mvirt.Redb.{Redb}
use package.mvirt.Redb.Txn.{Table, txn_get, txn_list, txn_put, txn_delete}
use package.mvirt.Redb.Txn.Laws.{txn_get-txn_put, txn_get-txn_delete, any-txn_get}

module _ ⦃redb : Redb⦄ {V : Type 0} (scope name : V → String) where
  pub record HasUniqueNames (t : Table V) : Type 0 where
    pub at :
        (k j : String) (v w : V)
        → txn_get t k ≡ some v
        → txn_get t j ≡ some w
        → scope v ≡ scope w
        → name v ≡ name w
        → k ≡ j

  -- The test by which a new row is refused.
  abbrev pub is_taken : String → String → V → Bool
  is_taken s n v = scope v == s && name v == n

  module _ {t : Table V} (h : HasUniqueNames t) where
    pub HasUniqueNames-new :
        (k : String) (v : V)
        → any (is_taken (scope v) (name v)) (txn_list t) ≡ false
        → HasUniqueNames (txn_put t k v)
    HasUniqueNames-new k v fresh = record {
      at = λ i j x y at_i at_j same_scope same_name. ground (
        arith,
        txn_get-txn_put t k i v,
        txn_get-txn_put t k j v,
        h.at i j x y,
        eq_iff k i,
        eq_iff k j,
        eq_iff (scope x) (scope v),
        eq_iff (name x) (name v),
        eq_iff (scope y) (scope v),
        eq_iff (name y) (name v),
        any-txn_get (is_taken (scope v) (name v)) t i x fresh,
        any-txn_get (is_taken (scope v) (name v)) t j y fresh,
      );
    }

    -- A row may change in everything but its names.
    pub HasUniqueNames-change :
        (k : String) (v old : V)
        → txn_get t k ≡ some old
        → scope v ≡ scope old
        → name v ≡ name old
        → HasUniqueNames (txn_put t k v)
    HasUniqueNames-change k v old found same_scope same_name = record {
      at = λ i j x y at_i at_j e f. ground (
        arith,
        txn_get-txn_put t k i v,
        txn_get-txn_put t k j v,
        h.at i j x y,
        h.at k j old y found,
        h.at i k x old,
        eq_iff k i,
        eq_iff k j,
      );
    }

    pub HasUniqueNames-delete : (k : String) → HasUniqueNames (txn_delete t k)
    HasUniqueNames-delete k = record {
      at = λ i j x y at_i at_j.
          ground (arith, txn_get-txn_delete t k i, txn_get-txn_delete t k j, h.at i j x y);
    }
