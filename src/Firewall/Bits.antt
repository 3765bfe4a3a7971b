-- ===== src/Firewall/Bits.antt =====
-- The masks of mvirt-ebpf/programs/src/tc_egress.rs keep the leading bits of a byte.
use Prim.Native.Nat.{bit_and}
use mvirt.Prelude.{
  ℕ, zero, suc, ◌+◌, ◌-◌, ◌*◌, ◌/◌, ◌%◌, ◌^◌, ◌≤◌, ◌<◌, ◌≡◌, refl, sym, ap, ◌∙◌, Bool, true, nat_eq,
  ltb, ◌&&◌, Bool-cases, inl, inr, arith,
}
use mvirt.Firewall.Rule.{mask}

-- The bit of a byte at a place, the highest at 0.
abbrev pub bit : ℕ → ℕ → ℕ
bit x k = x / 2 ^ (7 - k) % 2

-- The value of the first bits of a byte, in their places.
abbrev leading : ℕ → ℕ → ℕ
leading zero x = 0
leading (suc k) x = leading k x + bit x k * 2 ^ (7 - k)

unfoldable all_below : ℕ → (ℕ → Bool) → Bool
all_below zero p = true
all_below (suc n) p = p n && all_below n p

all_below_sound : (n : ℕ) (p : ℕ → Bool) (i : ℕ) → all_below n p ≡ true → i < n → p i ≡ true
unfolding all_below
all_below_sound zero p i h small = absurd (omega arith)
all_below_sound (suc n) p i h small = elim (Bool-cases (ltb i n)) [
  | inl less ↦ all_below_sound n p i (ground arith) (ground (arith, less))
  | inr last ↦
      let same : i ≡ n = ground (arith, last) in
      let here : p n ≡ true = ground arith in ap p same ∙ here
]

-- What is looked up for a byte, a number of bits, and a place.
abbrev keeps : ℕ → ℕ → ℕ → Bool
keeps r x k = nat_eq (bit (bit_and x (mask r)) k) (bit x k)

abbrev weighs : ℕ → ℕ → Bool
weighs r x = nat_eq (bit_and x (mask r)) (leading r x) && all_below r (keeps r x)

bytes_checked : all_below 9 (λ r. all_below 256 (weighs r)) ≡ true
unfolding all_below
bytes_checked = refl

module _ (r x : ℕ) (few : r ≤ 8) (byte : x < 256) where
  checked : weighs r x ≡ true
  checked =
      all_below_sound 256 (weighs r) x
        (all_below_sound 9 (λ r. all_below 256 (weighs r)) r bytes_checked (omega arith)) byte

  masked_leading : bit_and x (mask r) ≡ leading r x
  masked_leading = ground (arith, checked)

  masked_bit : (k : ℕ) → k < r → bit (bit_and x (mask r)) k ≡ bit x k
  masked_bit k small =
      let kept : keeps r x k ≡ true =
        all_below_sound r (keeps r x) k (ground (arith, checked)) small in
      ground (arith, kept)

leading_agree : (r x y : ℕ) → ((k : ℕ) → k < r → bit x k ≡ bit y k) → leading r x ≡ leading r y
leading_agree zero x y h = refl
leading_agree (suc r) x y h =
    let before = leading_agree r x y (λ k small. h k (omega arith)) in
    rw (before, h r (omega arith)) refl

-- Under the mask two bytes are alike exactly if their leading bits are.
module _ (r x y : ℕ) (few : r ≤ 8) (byte_x : x < 256) (byte_y : y < 256) where
  pub masked-bits : bit_and x (mask r) ≡ bit_and y (mask r) → (k : ℕ) → k < r → bit x k ≡ bit y k
  masked-bits same k small =
      sym (masked_bit r x few byte_x k small)
      ∙ ap (λ m. bit m k) same
      ∙ masked_bit r y few byte_y k small

  pub bits-masked : ((k : ℕ) → k < r → bit x k ≡ bit y k) → bit_and x (mask r) ≡ bit_and y (mask r)
  bits-masked h =
      masked_leading r x few byte_x ∙ leading_agree r x y h ∙ sym (masked_leading r y few byte_y)

whole_checked : all_below 256 (λ x. nat_eq (bit_and x (mask 8)) x) ≡ true
unfolding all_below
whole_checked = refl

whole : (x : ℕ) → x < 256 → bit_and x (mask 8) ≡ x
whole x byte =
    let same : nat_eq (bit_and x (mask 8)) x ≡ true =
      all_below_sound 256 (λ x. nat_eq (bit_and x (mask 8)) x) x whole_checked byte in
    ground (arith, same)

-- Whole bytes are alike if all their bits are.
pub bits-byte : (x y : ℕ) → x < 256 → y < 256 → ((k : ℕ) → k < 8 → bit x k ≡ bit y k) → x ≡ y
bits-byte x y byte_x byte_y h =
    sym (whole x byte_x) ∙ bits-masked 8 x y (omega arith) byte_x byte_y h ∙ whole y byte_y
