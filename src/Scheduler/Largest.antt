-- ===== src/Scheduler/Largest.antt =====
-- What the loop of mvirt-cplane/src/scheduler.rs over the candidates ends with.
use mathlib.Core.Path.{subst}
use mvirt.Prelude.{
  leb, ◌≤◌, ◌<◌, Memᴰ, ◌⊎◌, inl, inr, Bool-cases, sym, arith, ◌∙◌, ℕ, ◌≡◌, refl, List, [], ◌∷◌,
}
use mathlib.Core.List.Memᴰ.{head, tail, cases_cons, not-nil}
use mvirt.Resource.Node.{NodeData}
use package.mvirt.Scheduler.{max_by_memory}

abbrev pub memory_of : NodeData → ℕ
memory_of n = n.resources.available_memory_mb

-- One of the nodes: those before it have no more memory, those after it have less.
abbrev pub IsLastLargest : NodeData → List NodeData → Type 0
IsLastLargest r [] = ⊥
IsLastLargest r (m ∷ rest) =
    ((r ≡ m) × ((n : NodeData) → Memᴰ n rest → memory_of n < memory_of r))
    ⊎ ((memory_of m ≤ memory_of r) × IsLastLargest r rest)

IsLastLargest-first :
    (r m : NodeData) (rest : List NodeData) → IsLastLargest r (m ∷ rest) → memory_of m ≤ memory_of r
IsLastLargest-first r m rest (inl (same, less)) = rw same (omega arith)
IsLastLargest-first r m rest (inr (le, later)) = le

-- A node with less memory right after the best so far changes nothing.
IsLastLargest-skip :
    (r best n : NodeData) (rest : List NodeData)
    → memory_of n < memory_of best
    → IsLastLargest r (best ∷ rest)
    → IsLastLargest r (best ∷ n ∷ rest)
IsLastLargest-skip r best n rest less (inl (same, after)) = inl (same, below)
  where
    below : (m : NodeData) → Memᴰ m (n ∷ rest) → memory_of m < memory_of r
    below m (head is_n) = rw (is_n, same) less
    below m (tail later) = after m later
IsLastLargest-skip r best n rest less (inr (le, later)) = inr (le, inr (omega arith, later))

pub max_by_memory-IsLastLargest :
    (best : NodeData) (rest : List NodeData) → IsLastLargest (max_by_memory best rest) (best ∷ rest)
unfolding max_by_memory
max_by_memory-IsLastLargest best [] = inl (refl, λ n there. absurd (not-nil there))
max_by_memory-IsLastLargest best (n ∷ rest) =
    elim (Bool-cases (leb (memory_of best) (memory_of n))) [
      | inl more ↦
          let next : max_by_memory best (n ∷ rest) ≡ max_by_memory n rest =
            rw (more, max_by_memory) refl in
          let found = max_by_memory-IsLastLargest n rest in
          let above = IsLastLargest-first (max_by_memory n rest) n rest found in
          subst (λ r. IsLastLargest r (best ∷ n ∷ rest)) (sym next)
            (inr (ground (arith, above, more), found))
      | inr less ↦
          let next : max_by_memory best (n ∷ rest) ≡ max_by_memory best rest =
            rw (less, max_by_memory) refl in
          subst (λ r. IsLastLargest r (best ∷ n ∷ rest)) (sym next)
            (IsLastLargest-skip (max_by_memory best rest) best n rest (ground (arith, less))
              (max_by_memory-IsLastLargest best rest))
    ]

-- One of the nodes, and none has more memory.
abbrev pub IsLargest : NodeData → List NodeData → Type 0
IsLargest r nodes = Memᴰ r nodes × ((m : NodeData) → Memᴰ m nodes → memory_of m ≤ memory_of r)

-- One of the first two nodes is kept.
IsLargest-step :
    (r kept best n : NodeData) (rest : List NodeData)
    → (kept ≡ best) ⊎ (kept ≡ n)
    → memory_of best ≤ memory_of kept
    → memory_of n ≤ memory_of kept
    → IsLargest r (kept ∷ rest)
    → IsLargest r (best ∷ n ∷ rest)
IsLargest-step r kept best n rest which_one best_le n_le (there, top) =
    (place (cases_cons there), above)
  where
    place : (r ≡ kept) ⊎ Memᴰ r rest → Memᴰ r (best ∷ n ∷ rest)
    place (inl same) = elim which_one [
      | inl first ↦ head (same ∙ first)
      | inr second ↦ tail (head (same ∙ second))
    ]
    place (inr later) = tail (tail later)

    above : (m : NodeData) → Memᴰ m (best ∷ n ∷ rest) → memory_of m ≤ memory_of r
    above m (head same) = rw same (omega (arith, top kept (head refl)))
    above m (tail (head same)) = rw same (omega (arith, top kept (head refl)))
    above m (tail (tail later)) = top m (tail later)

pub max_by_memory-IsLargest :
    (best : NodeData) (rest : List NodeData) → IsLargest (max_by_memory best rest) (best ∷ rest)
unfolding max_by_memory
max_by_memory-IsLargest best [] = (head refl, above)
  where
    above : (m : NodeData) → Memᴰ m (best ∷ []) → memory_of m ≤ memory_of best
    above m (head same) = rw same (omega arith)
    above m (tail later) = absurd (not-nil later)
max_by_memory-IsLargest best (n ∷ rest) = elim (Bool-cases (leb (memory_of best) (memory_of n))) [
  | inl more ↦
      rw (more, max_by_memory)
        (IsLargest-step _ n best n rest (inr refl) (ground arith) (omega arith)
          (max_by_memory-IsLargest n rest))
  | inr less ↦
      rw (less, max_by_memory)
        (IsLargest-step _ best best n rest (inl refl) (omega arith) (ground arith)
          (max_by_memory-IsLargest best rest))
]
