-- ===== src/Lru.antt =====
-- The bounded cache of the `lru` crate, which is third-party code: its operations, with what its
-- documentation says of them. What an insertion evicts is left open.
pub mod Bounded
use mvirt.Prelude.{ℕ, String, ◌≡◌, Option, none, some, ◌==◌, false}

pub record Lru : Type 1 where
  pub Cache : Type 0 → Type 0
  pub new : (V : Type 0) → ℕ → Cache V
  pub peek : (V : Type 0) → Cache V → String → Option V
  pub put : (V : Type 0) → Cache V → String → V → Cache V
  pub peek-new : (V : Type 0) (cap : ℕ) (k : String) → peek V (new V cap) k ≡ none
  pub peek-put_self :
      (V : Type 0) (c : Cache V) (k : String) (v : V) → peek V (put V c k v) k ≡ some v
  -- Another key keeps its value, or is evicted.
  pub peek-put_other :
      (V : Type 0) (c : Cache V) (k j : String) (v w : V)
      → (k == j) ≡ false
      → peek V (put V c k v) j ≡ some w
      → peek V c j ≡ some w
