-- ===== src/Firewall/Scan.antt =====
-- The loop over the rules finds a hit exactly if one of the first 256 of the range is one.
use mvirt.Prelude.{
  ℕ, zero, suc, ◌+◌, ◌≤◌, ◌<◌, ◌≡◌, Bool, true, ltb, Bool-cases, inl, inr, arith, ap,
}
use mvirt.Firewall.Check.{scan}

pub scan_sound :
    (left : ℕ) (hit : ℕ → Bool) (i end : ℕ)
    → scan left hit i end ≡ true
    → (j : ℕ) × (i ≤ j) × (j < end) × (j < i + left) × (hit j ≡ true)
unfolding scan
scan_sound zero hit i end found = absurd (ground arith)
scan_sound (suc left) hit i end found = elim (Bool-cases (ltb i end)) [
  | inr past ↦ absurd (ground (arith, past))
  | inl here ↦ elim (Bool-cases (hit i)) [
    | inl hits ↦ (i, omega arith, ground (arith, here), omega arith, hits)
    | inr misses ↦
        let (j, from, below, near, hits) =
          scan_sound left hit (i + 1) end (ground (arith, here, misses)) in
        (j, omega (arith, from), below, omega (arith, near), hits)
  ]
]

pub scan_complete :
    (left : ℕ) (hit : ℕ → Bool) (i end j : ℕ)
    → i ≤ j
    → j < end
    → j < i + left
    → hit j ≡ true
    → scan left hit i end ≡ true
unfolding scan
scan_complete zero hit i end j from below near hits = absurd (omega arith)
scan_complete (suc left) hit i end j from below near hits = elim (Bool-cases (hit i)) [
  | inl now ↦ ground (arith, now)
  | inr misses ↦ elim (Bool-cases (ltb i j)) [
    | inr reached ↦
        let same : i ≡ j = ground (arith, reached) in
        absurd (ground (arith, ap hit same, misses, hits))
    | inl earlier ↦
        let later =
          scan_complete left hit (i + 1) end j (ground (arith, earlier)) below (omega arith) hits in
        ground (arith, misses, later)
  ]
]
