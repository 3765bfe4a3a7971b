-- ===== src/Redb/Memory.antt =====
-- An implementation of the database interface by a list of rows.
use mvirt.Prelude.{
  String, ◌≡◌, refl, some, Option, List, [], ◌∷◌, arith, ◌==◌, eq_iff, if◌then◌else◌,
}
use package.mvirt.Redb.{Redb}
use package.mvirt.Redb.Rows.{lookup, without, Distinct, without-Distinct}
pub use package.mvirt.Redb.Rows.{lookup-without}

-- A list of rows with its keys distinct.
abbrev Sheet : Type 0 → Type 0
Sheet V = (rows : List (String × V)) × Distinct rows

module _ (V : Type 0) where
  abbrev empty : Sheet V
  empty = ([], tt)

  abbrev get : Sheet V → String → Option V
  get s k = lookup k s.0

  pub insert_Distinct :
      (s : Sheet V) (k : String) (v : V) → Distinct {V = V} ((k, v) ∷ without k s.0)
  insert_Distinct s k v =
      (ground (arith, lookup-without k k s.0, eq_iff k k), without-Distinct k s.0 s.1)

  abbrev insert : Sheet V → String → V → Sheet V
  insert s k v = ((k, v) ∷ without k s.0, insert_Distinct s k v)

  abbrev remove : Sheet V → String → Sheet V
  remove s k = (without k s.0, without-Distinct k s.0 s.1)

  pub get-insert :
      (s : Sheet V) (k j : String) (v : V)
      → get (insert s k v) j ≡ (if k == j then some v else get s j)
  unfolding lookup
  get-insert s k j v = ground (arith, lookup-without k j s.0)

unfoldable pub memory : Redb
unfolding lookup without
memory = record {
  Table = Sheet;
  new = empty;
  get = get;
  insert = insert;
  remove = remove;
  iter = λ V s. s.0;
  get-new = λ V k. refl;
  get-insert = get-insert;
  get-remove = λ V s k j. lookup-without k j s.0;
  lookup-iter = λ V s k. refl;
  iter-Distinct = λ V s. s.1;
}
