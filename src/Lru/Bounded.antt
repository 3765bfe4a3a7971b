-- ===== src/Lru/Bounded.antt =====
-- An implementation of the cache interface: the rows with the last used first, cut off at the
-- capacity.
use mvirt.Prelude.{
  ℕ, zero, suc, ◌-◌, String, ◌≡◌, refl, some, List, [], ◌∷◌, arith, ◌==◌, eq_refl, false,
}
use mvirt.Redb.{lookup, without}
use mvirt.Redb.Memory.{lookup-without}
use package.mvirt.Lru.{Lru}

module _ {V : Type 0} where
  unfoldable pub cut : ℕ → List (String × V) → List (String × V)
  cut zero rows = []
  cut (suc n) [] = []
  cut (suc n) (row ∷ rest) = row ∷ cut n rest

  pub lookup-cut :
      (n : ℕ) (rows : List (String × V)) (j : String) (w : V)
      → lookup j (cut n rows) ≡ some w
      → lookup j rows ≡ some w
  unfolding cut lookup
  lookup-cut zero rows j w h = ground (arith, h)
  lookup-cut (suc n) [] j w h = h
  lookup-cut (suc n) ((k, v) ∷ rest) j w h = ground (arith, h, lookup-cut n rest j w)

  abbrev pub put : ℕ × List (String × V) → String → V → ℕ × List (String × V)
  put c k v = (c.0, (k, v) ∷ cut c.0 (without k c.1))

  pub lookup-put_self :
      (c : ℕ × List (String × V)) (k : String) (v : V) → lookup k (put c k v).1 ≡ some v
  unfolding lookup
  lookup-put_self c k v = ground (arith, eq_refl k)

  pub lookup-put_other :
      (c : ℕ × List (String × V)) (k j : String) (v w : V)
      → (k == j) ≡ false
      → lookup j (put c k v).1 ≡ some w
      → lookup j c.1 ≡ some w
  unfolding lookup
  lookup-put_other c k j v w other h =
      ground (arith, h, other, lookup-cut c.0 (without k c.1) j w, lookup-without k j c.1)

unfoldable pub bounded : Lru
unfolding lookup
bounded = record {
  Cache = λ V. ℕ × List (String × V);
  new = λ V cap. (cap - 1, []);
  peek = λ V c k. lookup k c.1;
  put = λ V. put;
  peek-new = λ V cap k. refl;
  peek-put_self = λ V. lookup-put_self;
  peek-put_other = λ V. lookup-put_other;
}
