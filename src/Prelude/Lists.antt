-- ===== src/Prelude/Lists.antt =====
-- Lists measured by native numbers, and Boolean tests over them.
use Prim.Native.Nat.{ℕ, zero, suc, ◌+◌, ◌≤◌, ◌<◌}
use mathlib.Core.Path.{◌≡◌, refl, sym, subst}
use mathlib.Core.Bool.{◌&&◌, Bool, true, false, ◌||◌, not}
use mathlib.Core.List.{List, [], ◌∷◌}
use mathlib.Core.Logic.{inl, inr}
use mathlib.Core.List.{Memᴰ}
use mathlib.Core.List.Memᴰ.{head, tail, not-nil, cases_cons}
use mathlib.Core.Option.{Option, none, some}
use native.Mathlib.Omega.{arith}
use mvirt.Prelude.Tests.{to_nat, Bool-cases, if◌then◌else◌}

module _ {ℓ} {A : Type ℓ} where
  abbrev pub length : List A → ℕ
  length [] = 0
  length (x ∷ xs) = suc (length xs)

  abbrev pub get_elem? : List A → ℕ → Option A
  get_elem? [] i = none
  get_elem? (x ∷ xs) zero = some x
  get_elem? (x ∷ xs) (suc i) = get_elem? xs i

  abbrev pub take : ℕ → List A → List A
  take zero xs = []
  take (suc n) [] = []
  take (suc n) (x ∷ xs) = x ∷ take n xs

  abbrev pub drop : ℕ → List A → List A
  drop zero xs = xs
  drop (suc n) [] = []
  drop (suc n) (x ∷ xs) = drop n xs

  pub get_elem?-some : (xs : List A) (i : ℕ) → i < length xs → (x : A) × (get_elem? xs i ≡ some x)
  get_elem?-some [] i h = absurd (omega arith)
  get_elem?-some (x ∷ xs) zero h = (x, refl)
  get_elem?-some (x ∷ xs) (suc i) h = get_elem?-some xs i (omega arith)

  abbrev pub is_empty : List A → Bool
  is_empty [] = true
  is_empty (x ∷ xs) = false

  -- `iter().any(p)`.
  unfoldable pub any : (A → Bool) → List A → Bool
  any p [] = false
  any p (x ∷ xs) = p x || any p xs

  -- `iter().filter(p).count()`.
  unfoldable pub count_if : (A → Bool) → List A → ℕ
  count_if p [] = 0
  count_if p (x ∷ xs) = to_nat (p x) + count_if p xs

  -- `into_iter().filter(p).collect()`, and `retain(p)`.
  unfoldable pub keep : (A → Bool) → List A → List A
  keep p [] = []
  keep p (x ∷ xs) = let rest = keep p xs in if p x then x ∷ rest else rest

  -- `into_iter().find(p)`.
  unfoldable pub find : (A → Bool) → List A → Option A
  find p [] = none
  find p (x ∷ xs) = if p x then some x else find p xs

  pub any-count_if : (p : A → Bool) (xs : List A) → any p xs ≡ false → count_if p xs ≡ 0
  unfolding any count_if
  any-count_if p [] h = refl
  any-count_if p (x ∷ xs) h = ground (arith, any-count_if p xs)

  pub count_if-any : (p : A → Bool) (xs : List A) → count_if p xs ≡ 0 → any p xs ≡ false
  unfolding any count_if
  count_if-any p [] h = refl
  count_if-any p (x ∷ xs) h = ground (arith, count_if-any p xs)

  pub length-keep : (p : A → Bool) (xs : List A) → length (keep p xs) ≡ count_if p xs
  unfolding keep count_if
  length-keep p [] = refl
  length-keep p (x ∷ xs) = ground (arith, length-keep p xs)

  pub count_if-le-all : (p : A → Bool) (xs : List A) → count_if p xs ≤ count_if (λ _. true) xs
  unfolding count_if
  count_if-le-all p [] = omega arith
  count_if-le-all p (x ∷ xs) = ground (arith, count_if-le-all p xs)

  pub any-keep : (p q : A → Bool) (xs : List A) → any q (keep p xs) ≡ any (λ x. p x && q x) xs
  unfolding any keep
  any-keep p q [] = refl
  any-keep p q (x ∷ xs) = ground (arith, any-keep p q xs)

  pub is_empty-keep : (p : A → Bool) (xs : List A) → is_empty (keep p xs) ≡ not (any p xs)
  unfolding any keep
  is_empty-keep p [] = refl
  is_empty-keep p (x ∷ xs) = ground (arith, is_empty-keep p xs)

  -- Two filters, one after the other, are one.
  pub keep-keep : (p q : A → Bool) (xs : List A) → keep p (keep q xs) ≡ keep (λ x. q x && p x) xs
  unfolding keep
  keep-keep p q [] = refl
  keep-keep p q (x ∷ xs) = elim (Bool-cases (q x)) [
    | inl passes ↦ rw passes (ground (arith, keep-keep p q xs))
    | inr fails ↦ rw fails (keep-keep p q xs)
  ]

  pub keep_sound :
      (p : A → Bool) (xs : List A) (a : A) → Memᴰ a (keep p xs) → Memᴰ a xs × (p a ≡ true)
  unfolding keep
  keep_sound p [] a m = absurd (not-nil m)
  keep_sound p (x ∷ xs) a m = elim (Bool-cases (p x)) [
    | inl passes ↦ elim (cases_cons (subst (λ l. Memᴰ a l) (ground (arith, passes)) m)) [
      | inl same ↦ (head same, rw same passes)
      | inr later ↦ let (there, ok) = keep_sound p xs a later in (tail there, ok)
    ]
    | inr fails ↦
        let (there, ok) = keep_sound p xs a (subst (λ l. Memᴰ a l) (ground (arith, fails)) m) in
        (tail there, ok)
  ]

  pub keep_complete :
      (p : A → Bool) (xs : List A) (a : A) → Memᴰ a xs → p a ≡ true → Memᴰ a (keep p xs)
  unfolding keep
  keep_complete p [] a m ok = absurd (not-nil m)
  keep_complete p (x ∷ xs) a (head same) ok = rw (sym same, ok) (head refl)
  keep_complete p (x ∷ xs) a (tail m) ok = elim (Bool-cases (p x)) [
    | inl passes ↦ rw passes (tail (keep_complete p xs a m ok))
    | inr fails ↦ rw fails (keep_complete p xs a m ok)
  ]
