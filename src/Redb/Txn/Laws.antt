-- ===== src/Redb/Txn/Laws.antt =====
-- What the table helpers do to one another: the laws by which the handlers are proved.
use mvirt.Prelude.{
  find, inr, sym, inl, Bool-cases, true, ◌+◌, String, ◌≡◌, refl, ◌∙◌, Bool, false, none, some, ◌∷◌,
  arith, ◌==◌, eq_iff, if◌then◌else◌, to_nat, count_if, any, any-count_if, is_some,
}
use package.mvirt.Redb.{Redb, Distinct, lookup, values, without}
use package.mvirt.Redb.Rows.{
  find-lookup, find-missing, any-lookup, count_if_same, count_if-without, lookup-without,
  without-Distinct,
}
use package.mvirt.Redb.Txn.{
  Table, read_get, read_list, read_list_with_keys, txn_get, txn_has, txn_list, txn_put, txn_delete,
}

module _ ⦃redb : Redb⦄ {V : Type 0} where
  pub txn_get-new : (k : String) → txn_get (redb.new V) k ≡ none
  unfolding txn_get
  txn_get-new k = redb.get-new V k

module _ ⦃redb : Redb⦄ {V : Type 0} (t : Table V) where
  pub read_get-txn_get : (k : String) → read_get t k ≡ txn_get t k
  unfolding read_get txn_get
  read_get-txn_get k = refl

  pub read_list-txn_list : read_list t ≡ txn_list t
  unfolding read_list txn_list
  read_list-txn_list = refl

  pub lookup-read_list_with_keys : (k : String) → lookup k (read_list_with_keys t) ≡ txn_get t k
  unfolding read_list_with_keys txn_get
  lookup-read_list_with_keys k = redb.lookup-iter V t k

  pub read_list_with_keys-Distinct : Distinct (read_list_with_keys t)
  unfolding read_list_with_keys
  read_list_with_keys-Distinct = redb.iter-Distinct V t

  pub txn_has-txn_get : (k : String) → txn_has t k ≡ is_some (txn_get t k)
  unfolding txn_has txn_get
  txn_has-txn_get k = refl

  pub txn_get-txn_put :
      (k j : String) (v : V) → txn_get (txn_put t k v) j ≡ (if k == j then some v else txn_get t j)
  unfolding txn_get txn_put
  txn_get-txn_put k j v = redb.get-insert V t k j v

  -- A key finds what was written under it.
  pub txn_get-txn_put_self : (k j : String) (v : V) → k ≡ j → txn_get (txn_put t k v) j ≡ some v
  txn_get-txn_put_self k j v same = ground (arith, txn_get-txn_put k j v, eq_iff k j)

  pub txn_get-txn_delete :
      (k j : String) → txn_get (txn_delete t k) j ≡ (if k == j then none else txn_get t j)
  unfolding txn_get txn_delete
  txn_get-txn_delete k j = redb.get-remove V t k j

module _ ⦃redb : Redb⦄ {V : Type 0} (p : V → Bool) (t : Table V) (k : String) where
  -- A new key adds its value to a count.
  pub count_if-put_new :
      (v : V)
      → txn_get t k ≡ none
      → count_if p (txn_list (txn_put t k v)) ≡ to_nat (p v) + count_if p (txn_list t)
  unfolding txn_get txn_list txn_put lookup count_if
  count_if-put_new v h =
      count_if_same p (redb.iter V (redb.insert V t k v)) ((k, v) ∷ redb.iter V t)
        (redb.iter-Distinct V (redb.insert V t k v))
        ((redb.lookup-iter V t k ∙ h, redb.iter-Distinct V t))
        (λ j. ground (
          arith,
          redb.lookup-iter V t j,
          redb.lookup-iter V (redb.insert V t k v) j,
          redb.get-insert V t k j v,
        ))

  -- Taking a key out takes its value out of a count.
  pub count_if-delete :
      (w : V)
      → txn_get t k ≡ some w
      → count_if p (txn_list t) ≡ to_nat (p w) + count_if p (txn_list (txn_delete t k))
  unfolding txn_get txn_list txn_delete
  count_if-delete w h =
      let gone : count_if p (values (redb.iter V (redb.remove V t k)))
          ≡ count_if p (values (without k (redb.iter V t))) =
        count_if_same p (redb.iter V (redb.remove V t k)) (without k (redb.iter V t))
          (redb.iter-Distinct V (redb.remove V t k))
          (without-Distinct k (redb.iter V t) (redb.iter-Distinct V t))
          (λ j. ground (
            arith,
            redb.lookup-iter V t j,
            redb.lookup-iter V (redb.remove V t k) j,
            redb.get-remove V t k j,
            lookup-without k j (redb.iter V t),
          )) in
      omega (
        arith,
        gone,
        count_if-without p k (redb.iter V t) {v = w} (redb.iter-Distinct V t)
            (redb.lookup-iter V t k ∙ h),
      )

  -- Overwriting a key replaces its value in a count.
  pub count_if-put_old :
      (v w : V)
      → txn_get t k ≡ some w
      → count_if p (txn_list (txn_put t k v)) + to_nat (p w)
        ≡ to_nat (p v) + count_if p (txn_list t)
  unfolding txn_get txn_list txn_put lookup count_if
  count_if-put_old v w h =
      let changed : count_if p (values (redb.iter V (redb.insert V t k v)))
          ≡ count_if p (values ((k, v) ∷ without k (redb.iter V t))) =
        count_if_same p (redb.iter V (redb.insert V t k v)) ((k, v) ∷ without k (redb.iter V t))
          (redb.iter-Distinct V (redb.insert V t k v))
          ((
            ground (arith, lookup-without k k (redb.iter V t), eq_iff k k),
            without-Distinct k (redb.iter V t) (redb.iter-Distinct V t),
          ))
          (λ j. ground (
            arith,
            redb.lookup-iter V t j,
            redb.lookup-iter V (redb.insert V t k v) j,
            redb.get-insert V t k j v,
            lookup-without k j (redb.iter V t),
          )) in
      omega (
        arith,
        changed,
        count_if-without p k (redb.iter V t) {v = w} (redb.iter-Distinct V t)
            (redb.lookup-iter V t k ∙ h),
      )

  -- No stored value passes a test that `any` refutes.
  pub any-txn_get : (w : V) → any p (txn_list t) ≡ false → txn_get t k ≡ some w → p w ≡ false
  any-txn_get w none_passes h = ground (arith, any-count_if p (txn_list t), count_if-delete w)

module _ ⦃redb : Redb⦄ {V : Type 0} (p : V → Bool) (t : Table V) where
  -- A stored value that passes a test has a key.
  pub any-key :
      any p (txn_list t) ≡ true → (k : String) × (v : V) × (txn_get t k ≡ some v) × (p v ≡ true)
  unfolding txn_get txn_list
  any-key h =
      let (k, v, at_k, passes) = any-lookup p (redb.iter V t) (redb.iter-Distinct V t) h in
      (k, v, sym (redb.lookup-iter V t k) ∙ at_k, passes)

  -- A test that no stored value passes counts nothing.
  pub count_if-zero :
      ((k : String) (v : V) → txn_get t k ≡ some v → p v ≡ false) → count_if p (txn_list t) ≡ 0
  count_if-zero h = elim (Bool-cases (any p (txn_list t))) [
    | inl found ↦ let (k, v, at_k, passes) = any-key found in absurd (ground (arith, h k v at_k))
    | inr none_passes ↦ any-count_if p (txn_list t) none_passes
  ]

  -- Deleting a key that is not there changes no count.
  pub count_if-delete_missing :
      (k : String)
      → txn_get t k ≡ none
      → count_if p (txn_list (txn_delete t k)) ≡ count_if p (txn_list t)
  unfolding txn_get txn_list txn_delete
  count_if-delete_missing k gone =
      count_if_same p (redb.iter V (redb.remove V t k)) (redb.iter V t)
        (redb.iter-Distinct V (redb.remove V t k)) (redb.iter-Distinct V t)
        (λ j. ground (
          arith,
          redb.lookup-iter V t j,
          redb.lookup-iter V (redb.remove V t k) j,
          redb.get-remove V t k j,
          eq_iff k j,
        ))

  -- The first row that passes a test stands under a key.
  pub find-txn_get :
      (v : V) → find p (txn_list t) ≡ some v → (k : String) × (txn_get t k ≡ some v) × (p v ≡ true)
  unfolding txn_get txn_list
  find-txn_get v h =
      let (k, at_k, passes) = find-lookup p (redb.iter V t) v (redb.iter-Distinct V t) h in
      (k, sym (redb.lookup-iter V t k) ∙ at_k, passes)

  pub find-txn_list_missing :
      (k : String) (v : V) → find p (txn_list t) ≡ none → txn_get t k ≡ some v → p v ≡ false
  unfolding txn_get txn_list
  find-txn_list_missing k v h at_k =
      find-missing p (redb.iter V t) k v h (redb.lookup-iter V t k ∙ at_k)
