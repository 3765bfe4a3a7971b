-- ===== src/Redb/Counted/Steps.antt =====
-- The changes to the two tables that keep the counters right.
use mvirt.Prelude.{
  opt_eq_iff, ℕ, suc, ◌+◌, ◌<◌, ◌^◌, String, ◌≡◌, true, Option, none, some, opt_eq, arith, eq_iff,
  incr_u32, decr_u32, count_if-le-all,
}
use package.mvirt.Redb.{Redb}
use package.mvirt.Redb.Txn.{Table, txn_get, txn_list, txn_put, txn_delete}
use package.mvirt.Redb.Txn.Laws.{
  txn_get-txn_put, txn_get-txn_delete, count_if-put_new, count_if-put_old, count_if-delete,
  count_if-zero,
}
use package.mvirt.Redb.Counted.{IsCounted, refs}

module _ ⦃redb : Redb⦄ {N W : Type 0} (ref : N → Option String) (counter : W → ℕ) {budget : ℕ}
    {ts : Table W} {ns : Table N} (v : IsCounted ref counter budget ts ns) where
  -- More rows may be allowed.
  pub IsCounted-more : IsCounted ref counter (suc budget) ts ns
  IsCounted-more = record {
    linked = v.linked;
    counted = v.counted;
    bounded = omega (arith, v.bounded);
  }

  -- Nothing refers to a row that is not there.
  pub refs-missing : (j : String) → txn_get ts j ≡ none → refs ref ns j ≡ 0
  refs-missing j gone =
      count_if-zero _ ns
        λ k n at_k. ground (arith, v.linked k n j at_k, opt_eq_iff (ref n) (some j))

  -- A new target starts at 0.
  pub IsCounted-new_target :
      (j : String) (w : W)
      → txn_get ts j ≡ none
      → counter w ≡ 0
      → IsCounted ref counter budget (txn_put ts j w) ns
  IsCounted-new_target j w gone start = record {
    linked = λ k n i at_k to. ground (arith, v.linked k n i at_k to, txn_get-txn_put ts j i w);
    counted = λ i u at_i.
        ground (arith, txn_get-txn_put ts j i w, v.counted i u, refs-missing j gone, eq_iff j i);
    bounded = v.bounded;
  }

  -- A target may change in everything but its counter.
  pub IsCounted-put_target :
      (j : String) (w u : W)
      → txn_get ts j ≡ some u
      → counter w ≡ counter u
      → IsCounted ref counter budget (txn_put ts j w) ns
  IsCounted-put_target j w u old same = record {
    linked = λ k n i at_k to. ground (arith, v.linked k n i at_k to, txn_get-txn_put ts j i w);
    counted = λ i x at_i.
        ground (arith, txn_get-txn_put ts j i w, v.counted i x, v.counted j u old, eq_iff j i);
    bounded = v.bounded;
  }

  -- A referring row may change in everything but its reference.
  pub IsCounted-put_source :
      (k : String) (n m : N)
      → txn_get ns k ≡ some m
      → ref n ≡ ref m
      → IsCounted ref counter budget ts (txn_put ns k n)
  IsCounted-put_source k n m old same = record {
    linked = λ i x j at_i to.
        ground (arith, txn_get-txn_put ns k i n, v.linked i x j, v.linked k m j old, eq_iff k i);
    counted = λ j w at_j. ground (
      arith,
      same,
      v.counted j w at_j,
      count_if-put_old (λ x. opt_eq (ref x) (some j)) ns k n m old,
    );
    bounded = ground (arith, v.bounded, count_if-put_old (λ _. true) ns k n m old);
  }

  -- A new row that refers to nothing.
  pub IsCounted-new_free :
      (k : String) (n : N)
      → txn_get ns k ≡ none
      → ref n ≡ none
      → IsCounted ref counter (suc budget) ts (txn_put ns k n)
  IsCounted-new_free k n gone free = record {
    linked = λ i x j at_i to. ground (arith, txn_get-txn_put ns k i n, v.linked i x j);
    counted = λ j w at_j. ground (
      arith,
      free,
      v.counted j w at_j,
      count_if-put_new (λ x. opt_eq (ref x) (some j)) ns k n gone,
    );
    bounded = ground (arith, v.bounded, count_if-put_new (λ _. true) ns k n gone);
  }

  -- A new row that refers to a target, whose counter goes up by one.
  pub IsCounted-new_source :
      (k : String) (n : N) (j : String) (w u : W)
      → txn_get ns k ≡ none
      → ref n ≡ some j
      → txn_get ts j ≡ some u
      → counter w ≡ incr_u32 (counter u)
      → suc budget < 2 ^ 32
      → IsCounted ref counter (suc budget) (txn_put ts j w) (txn_put ns k n)
  IsCounted-new_source k n j w u gone to old up fits = record {
    linked = λ i x l at_i to'.
        ground
          (arith, txn_get-txn_put ns k i n, txn_get-txn_put ts j l w, v.linked i x l, eq_iff j l);
    counted = λ l x at_l. counted_after l x at_l;
    bounded = ground (arith, v.bounded, count_if-put_new (λ _. true) ns k n gone);
  }
    where
      room : counter u + 1 < 2 ^ 32
      room = omega (
        arith,
        v.counted j u old,
        v.bounded,
        fits,
        count_if-le-all (λ x. opt_eq (ref x) (some j)) (txn_list ns),
      )

      counted_after :
          (l : String) (x : W)
          → txn_get (txn_put ts j w) l ≡ some x
          → counter x ≡ refs ref (txn_put ns k n) l
      counted_after l x at_l = ground (
        arith,
        txn_get-txn_put ts j l w,
        v.counted l x,
        v.counted j u old,
        eq_iff j l,
        room,
        up,
        to,
        count_if-put_new (λ x. opt_eq (ref x) (some l)) ns k n gone,
      )

  -- A row that goes takes one off its target's counter.
  pub IsCounted-delete_source :
      (k : String) (n : N) (j : String) (w u : W)
      → txn_get ns k ≡ some n
      → ref n ≡ some j
      → txn_get ts j ≡ some u
      → counter w ≡ decr_u32 (counter u)
      → IsCounted ref counter budget (txn_put ts j w) (txn_delete ns k)
  IsCounted-delete_source k n j w u there to old down = record {
    linked = λ i x l at_i to'.
        ground (arith, txn_get-txn_delete ns k i, txn_get-txn_put ts j l w, v.linked i x l);
    counted = λ l x at_l. ground (
      arith,
      txn_get-txn_put ts j l w,
      v.counted l x,
      v.counted j u old,
      eq_iff j l,
      down,
      to,
      count_if-delete (λ x. opt_eq (ref x) (some l)) ns k n there,
    );
    bounded = ground (arith, v.bounded, count_if-delete (λ _. true) ns k n there);
  }

  pub IsCounted-delete_free :
      (k : String) (n : N)
      → txn_get ns k ≡ some n
      → ref n ≡ none
      → IsCounted ref counter budget ts (txn_delete ns k)
  IsCounted-delete_free k n there free = record {
    linked = λ i x l at_i to'. ground (arith, txn_get-txn_delete ns k i, v.linked i x l);
    counted = λ l x at_l. ground (
      arith,
      free,
      v.counted l x at_l,
      count_if-delete (λ x. opt_eq (ref x) (some l)) ns k n there,
    );
    bounded = ground (arith, v.bounded, count_if-delete (λ _. true) ns k n there);
  }
