-- ===== src/Redb/Txn/Rows.antt =====
-- The loop that deletes a list of rows by their ids.
use mvirt.Prelude.{
  sym, eq_refl, Bool-cases, to_nat, ◌≤◌, String, ◌≡◌, refl, ◌∙◌, Bool, true, false, none, some,
  List, [], ◌∷◌, arith, ◌==◌, ◌&&◌, eq_iff, if◌then◌else◌, count_if, any, keep, any-keep,
  Option-cases, inl, inr,
}
use package.mvirt.Redb.{Redb}
use package.mvirt.Redb.Keyed.{IsKeyed}
use package.mvirt.Redb.Txn.{Table, txn_get, txn_list, txn_delete, delete_rows}
use package.mvirt.Redb.Txn.Laws.{
  txn_get-txn_delete, any-txn_get, any-key, count_if-delete, count_if-delete_missing,
}

module _ ⦃redb : Redb⦄ {V : Type 0} (id_of : V → String) where
  abbrev pub names : String → List V → Bool
  names k = any (λ v. id_of v == k)

  pub txn_get-delete_rows :
      (t : Table V) (rows : List V) (k : String)
      → txn_get (delete_rows id_of t rows) k ≡ (if names k rows then none else txn_get t k)
  unfolding delete_rows any
  txn_get-delete_rows t [] k = refl
  txn_get-delete_rows t (row ∷ rest) k = ground (
    arith,
    txn_get-delete_rows (txn_delete t (id_of row)) rest k,
    txn_get-txn_delete t (id_of row) k,
  )

  pub count_if-delete_rows-le :
      (p : V → Bool) (t : Table V) (rows : List V)
      → count_if p (txn_list (delete_rows id_of t rows)) ≤ count_if p (txn_list t)
  unfolding delete_rows
  count_if-delete_rows-le p t [] = omega arith
  count_if-delete_rows-le p t (row ∷ rest) = elim (Option-cases (txn_get t (id_of row))) [
    | inl gone ↦ omega (
      arith,
      count_if-delete_rows-le p (txn_delete t (id_of row)) rest,
      count_if-delete_missing p t (id_of row) gone,
    )
    | inr (v, there) ↦ omega (
      arith,
      count_if-delete_rows-le p (txn_delete t (id_of row)) rest,
      count_if-delete p t (id_of row) v there,
    )
  ]

  -- Rows that a test does not count may go.
  pub count_if-delete_rows :
      (p : V → Bool) (t : Table V) (rows : List V)
      → ((k : String) (v : V) → txn_get t k ≡ some v → names k rows ≡ true → p v ≡ false)
      → count_if p (txn_list (delete_rows id_of t rows)) ≡ count_if p (txn_list t)
  unfolding delete_rows any
  count_if-delete_rows p t [] h = refl
  count_if-delete_rows p t (row ∷ rest) h =
      let deleted = txn_delete t (id_of row) in
      let later = count_if-delete_rows p deleted rest (λ k v at_k named.
        h k v (ground (arith, txn_get-txn_delete t (id_of row) k)) (ground (arith, named))) in
      elim (Option-cases (txn_get t (id_of row))) [
        | inl gone ↦ later ∙ count_if-delete_missing p t (id_of row) gone
        | inr (v, there) ↦
            omega (arith, later, count_if-delete p t (id_of row) v there, count_uncounted v there)
      ]
    where
      count_uncounted : (v : V) → txn_get t (id_of row) ≡ some v → to_nat (p v) ≡ 0
      count_uncounted v there = ground (arith, h (id_of row) v there, eq_refl (id_of row))

  module _ (t : Table V) (keyed : IsKeyed id_of t) (p : V → Bool) where
    -- The rows that pass a test are named exactly by the keys at which such a row stands.
    pub names-keep :
        (k : String) (v : V) → txn_get t k ≡ some v → names k (keep p (txn_list t)) ≡ p v
    names-keep k v at_k = elim (Bool-cases (names k (keep p (txn_list t)))) [
      | inl named ↦
          let (j, w, at_j, passes) =
            any-key (λ x. p x && id_of x == k) t
              (sym (any-keep p (λ x. id_of x == k) (txn_list t)) ∙ named) in
          ground (arith, keyed.at j w at_j, eq_iff (id_of w) k)
      | inr unnamed ↦ ground (
        arith,
        keyed.at k v at_k,
        eq_refl k,
        any-keep p (λ x. id_of x == k) (txn_list t),
        any-txn_get (λ x. p x && id_of x == k) t k v,
      )
    ]

    -- After the loop over the rows that pass a test, none that passes is left, and the others are.
    pub txn_get-delete_rows-keep :
        (k : String)
        → txn_get (delete_rows id_of t (keep p (txn_list t))) k
          ≡ (elim (txn_get t k) [ none ↦ none | some v ↦ if p v then none else some v ])
    txn_get-delete_rows-keep k = elim (Option-cases (txn_get t k)) [
      | inl gone ↦ ground (arith, txn_get-delete_rows t (keep p (txn_list t)) k)
      | inr (v, at_k) ↦
          ground (arith, txn_get-delete_rows t (keep p (txn_list t)) k, names-keep k v at_k)
    ]
