-- ===== src/Redb.antt =====
-- The embedded database `redb` that holds the control plane's tables. It is a third-party crate:
-- its operations are the fields of an interface, with what its documentation says of them. A value
-- stands for its bincode encoding, which the code takes apart with `expect`.
mod Rows
pub mod Txn
pub mod Memory
pub mod Counted
pub mod Keyed
pub mod Linked
pub mod Unique
use mvirt.Prelude.{String, ◌≡◌, Option, none, some, List, ◌==◌, if◌then◌else◌}
use Rows.{lookup, Distinct}
unfoldable pub use Rows.{lookup, Distinct, values, without}

pub record Redb : Type 1 where
  pub Table : Type 0 → Type 0
  pub new : (V : Type 0) → Table V
  pub get : (V : Type 0) → Table V → String → Option V
  pub insert : (V : Type 0) → Table V → String → V → Table V
  pub remove : (V : Type 0) → Table V → String → Table V
  -- The range over the whole table.
  pub iter : (V : Type 0) → Table V → List (String × V)
  pub get-new : (V : Type 0) (k : String) → get V (new V) k ≡ none
  pub get-insert :
      (V : Type 0) (t : Table V) (k j : String) (v : V)
      → get V (insert V t k v) j ≡ (if k == j then some v else get V t j)
  pub get-remove :
      (V : Type 0) (t : Table V) (k j : String)
      → get V (remove V t k) j ≡ (if k == j then none else get V t j)
  -- Iteration meets every entry, and each key once.
  pub lookup-iter : (V : Type 0) (t : Table V) (k : String) → lookup k (iter V t) ≡ get V t k
  pub iter-Distinct : (V : Type 0) (t : Table V) → Distinct (iter V t)
