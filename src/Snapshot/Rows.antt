-- ===== src/Snapshot/Rows.antt =====
-- Maps as lists of rows: when two hold the same, and what writing all rows of one to a table gives.
use mvirt.Prelude.{String, ◌≡◌, List}
use mvirt.Redb.{lookup, Distinct}

pub record SameMap {V : Type 0} (xs ys : List (String × V)) : Type 0 where
  pub same : (k : String) → lookup k ys ≡ lookup k xs
  pub distinct : Distinct xs → Distinct ys
