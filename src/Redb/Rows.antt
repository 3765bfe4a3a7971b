-- ===== src/Redb/Rows.antt =====
-- Lists of rows: a key at most once, and what such a list says of the values it holds.
use mvirt.Prelude.{
  false, find, true, ◌+◌, String, ◌≡◌, refl, sym, Bool, Option, none, some, List, [], ◌∷◌, arith,
  ◌==◌, eq_iff, eq_refl, if◌then◌else◌, to_nat, count_if, any, Bool-cases, inl, inr,
}

module _ {ℓ} {V : Type ℓ} where
  unfoldable pub lookup : String → List (String × V) → Option V
  lookup k [] = none
  lookup k ((j, v) ∷ rows) = if j == k then some v else lookup k rows

  unfoldable pub without : String → List (String × V) → List (String × V)
  without k [] = []
  without k ((j, v) ∷ rows) = let rest = without k rows in if j == k then rest else (j, v) ∷ rest

  abbrev pub values : List (String × V) → List V
  values [] = []
  values ((k, v) ∷ rows) = v ∷ values rows

  abbrev pub Distinct : List (String × V) → Type ℓ
  Distinct [] = Unit
  Distinct ((k, v) ∷ rows) = (lookup k rows ≡ none) × Distinct rows

  pub lookup-without :
      (k j : String) (rows : List (String × V))
      → lookup j (without k rows) ≡ (if k == j then none else lookup j rows)
  unfolding lookup without
  lookup-without k j [] = ground arith
  lookup-without k j ((i, v) ∷ rows) =
      ground (arith, lookup-without k j rows, eq_iff i k, eq_iff i j, eq_iff k j)

  pub without-Distinct :
      (k : String) (rows : List (String × V)) → Distinct rows → Distinct (without k rows)
  unfolding lookup without
  without-Distinct k [] d = tt
  without-Distinct k ((j, v) ∷ rows) d = elim (Bool-cases (j == k)) [
    | inl same ↦ rw same (without-Distinct k rows d.1)
    | inr other ↦ rw other (
        (
          ground (arith, lookup-without k j rows, eq_iff k j, eq_iff j k),
          without-Distinct k rows d.1,
        ))
  ]

  without_missing :
      (k : String) (rows : List (String × V)) → lookup k rows ≡ none → without k rows ≡ rows
  unfolding lookup without
  without_missing k [] h = refl
  without_missing k ((j, v) ∷ rows) h = ground (arith, without_missing k rows)

  -- Taking a row out takes its value out of the count.
  pub count_if-without :
      (p : V → Bool) (k : String) (rows : List (String × V)) {v : V}
      → Distinct rows
      → lookup k rows ≡ some v
      → count_if p (values rows) ≡ to_nat (p v) + count_if p (values (without k rows))
  unfolding lookup without count_if
  count_if-without p k [] d h = cc
  count_if-without p k ((j, w) ∷ rows) {v = v} d h = elim (Bool-cases (j == k)) [
    | inl same ↦ ground (arith, eq_iff j k, without_missing k rows)
    | inr other ↦ ground (arith, count_if-without p k rows {v = v} d.1)
  ]

  empty_of_lookup :
      (p : V → Bool) (rows : List (String × V))
      → ((j : String) → lookup j rows ≡ none)
      → count_if p (values rows) ≡ 0
  unfolding lookup count_if
  empty_of_lookup p [] h = refl
  empty_of_lookup p ((k, v) ∷ rows) h = ground (arith, h k, eq_refl k)

  -- Two lists with the same entries hold as many values that pass a test.
  pub count_if_same :
      (p : V → Bool) (xs ys : List (String × V))
      → Distinct xs
      → Distinct ys
      → ((j : String) → lookup j xs ≡ lookup j ys)
      → count_if p (values xs) ≡ count_if p (values ys)
  unfolding lookup count_if
  count_if_same p [] ys dx dy h = sym (empty_of_lookup p ys (λ j. sym (h j)))
  count_if_same p ((k, v) ∷ xs) ys dx dy h =
      let here : lookup k ys ≡ some v = ground (arith, h k, eq_refl k) in
      let rest : count_if p (values xs) ≡ count_if p (values (without k ys)) =
        count_if_same p xs (without k ys) dx.1 (without-Distinct k ys dy)
          (λ j. ground (arith, h j, lookup-without k j ys, eq_iff k j)) in
      omega (arith, rest, count_if-without p k ys {v = v} dy here)

  -- A value that passes a test stands under a key.
  pub any-lookup :
      (p : V → Bool) (rows : List (String × V))
      → Distinct rows
      → any p (values rows) ≡ true
      → (k : String) × (v : V) × (lookup k rows ≡ some v) × (p v ≡ true)
  unfolding lookup any
  any-lookup p [] d h = cc
  any-lookup p ((k, v) ∷ rows) d h = elim (Bool-cases (p v)) [
    | inl passes ↦ (k, v, ground (arith, eq_refl k), passes)
    | inr fails ↦
        let (j, w, at_j, passes) = any-lookup p rows d.1 (ground arith) in
        (j, w, ground (arith, eq_iff k j), passes)
  ]

  -- The value that `find` meets first stands under a key.
  pub find-lookup :
      (p : V → Bool) (rows : List (String × V)) (v : V)
      → Distinct rows
      → find p (values rows) ≡ some v
      → (k : String) × (lookup k rows ≡ some v) × (p v ≡ true)
  unfolding lookup find
  find-lookup p [] v d h = cc
  find-lookup p ((k, w) ∷ rows) v d h = elim (Bool-cases (p w)) [
    | inl passes ↦ (k, ground (arith, eq_refl k), ground arith)
    | inr fails ↦
        let (j, at_j, passes) = find-lookup p rows v d.1 (ground arith) in
        (j, ground (arith, eq_iff k j), passes)
  ]

  -- Where some value passes, `find` meets one.
  pub find-missing :
      (p : V → Bool) (rows : List (String × V)) (k : String) (v : V)
      → find p (values rows) ≡ none
      → lookup k rows ≡ some v
      → p v ≡ false
  unfolding lookup find
  find-missing p [] k v h e = cc
  find-missing p ((j, w) ∷ rows) k v h e = ground (arith, find-missing p rows k v)
