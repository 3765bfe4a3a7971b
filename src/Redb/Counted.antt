-- ===== src/Redb/Counted.antt =====
-- A counter that the rows of one table keep of the rows of another that refer to them, such as the
-- NICs of a network and the volumes of a template.
pub mod Steps
use mvirt.Prelude.{ℕ, suc, ◌+◌, ◌≤◌, String, ◌≡◌, true, Option, some, count_if, opt_eq, is_some}
use package.mvirt.Redb.{Redb}
use package.mvirt.Redb.Txn.{Table, txn_get, txn_list}

module _ ⦃redb : Redb⦄ {N : Type 0} (ref : N → Option String) where
  -- The rows of `ns` that refer to `j`.
  abbrev pub refs : Table N → String → ℕ
  refs ns j = count_if (λ n. opt_eq (ref n) (some j)) (txn_list ns)

module _ ⦃redb : Redb⦄ {N W : Type 0} (ref : N → Option String) (counter : W → ℕ) where
  -- Every reference has its target, every target counts its references, and there are at most
  -- `budget` rows that can refer.
  pub record IsCounted (budget : ℕ) (ts : Table W) (ns : Table N) : Type 0 where
    pub linked :
        (k : String) (n : N) (j : String)
        → txn_get ns k ≡ some n
        → ref n ≡ some j
        → is_some (txn_get ts j) ≡ true
    pub counted : (j : String) (w : W) → txn_get ts j ≡ some w → counter w ≡ refs ref ns j
    pub bounded : count_if (λ _. true) (txn_list ns) ≤ budget
