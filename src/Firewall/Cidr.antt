-- ===== src/Firewall/Cidr.antt =====
-- `cidr_matches` of mvirt-ebpf/programs/src/tc_egress.rs against its description bit by bit.
use Prim.Native.Nat.{bit_and}
use mathlib.Core.Path.{subst}
use mvirt.Prelude.{
  ℕ, zero, suc, ◌+◌, ◌*◌, ◌/◌, ◌%◌, ◌≤◌, ◌<◌, ◌≡◌, refl, ap, ◌↔◌, Bool, true, List, nat_eq, ltb,
  ◌&&◌, Bool-cases, inl, inr, arith,
}
use mvirt.Firewall.Rule.{octet, mask, address_bytes, full_bytes_match, cidr_matches}
use mvirt.Firewall.Bits.{bit, masked-bits, bits-masked, bits-byte}

-- The bit of an address at a place, the first at 0.
abbrev pub address_bit : List ℕ → ℕ → ℕ
address_bit addr k = bit (octet addr (k / 8)) (k % 8)

abbrev pub IsBytes : List ℕ → Type 0
IsBytes addr = (i : ℕ) → octet addr i < 256

module _ (bytes : ℕ) (c a : List ℕ) where
  full_bytes_match_sound :
      (left i : ℕ)
      → full_bytes_match left i bytes c a ≡ true
      → (j : ℕ) → i ≤ j
      → j < i + left
      → j < bytes
      → octet c j ≡ octet a j
  unfolding full_bytes_match
  full_bytes_match_sound zero i h j from below inside = absurd (omega arith)
  full_bytes_match_sound (suc left) i h j from below inside =
      let more : ltb i bytes ≡ true = ground arith in
      let here : nat_eq (octet c i) (octet a i) ≡ true = ground (arith, more) in
      elim (Bool-cases (ltb i j)) [
        | inl later ↦
            full_bytes_match_sound left (i + 1) (ground (arith, more, here)) j
              (ground (arith, later)) (omega arith) inside
        | inr reached ↦ let same : j ≡ i = ground (arith, reached) in rw same (ground (arith, here))
      ]

  full_bytes_match_complete :
      (left i : ℕ)
      → ((j : ℕ) → i ≤ j → j < i + left → j < bytes → octet c j ≡ octet a j)
      → full_bytes_match left i bytes c a ≡ true
  unfolding full_bytes_match
  full_bytes_match_complete zero i h = refl
  full_bytes_match_complete (suc left) i h = elim (Bool-cases (ltb i bytes)) [
    | inr past ↦ ground (arith, past)
    | inl more ↦
        let here : octet c i ≡ octet a i = h i (omega arith) (omega arith) (ground (arith, more)) in
        let later =
          full_bytes_match_complete left (i + 1)
            (λ j from below inside. h j (omega arith) (omega arith) inside) in
        ground (arith, more, here, later)
  ]

module _ (cidr_addr addr : List ℕ) (prefix_len ip_version : ℕ) (cidr : IsBytes cidr_addr)
    (bytes : IsBytes addr) where
  abbrev full : ℕ
  full = prefix_len / 8

  abbrev Agree : Type 0
  Agree =
      (k : ℕ)
      → k < prefix_len
      → k < 8 * address_bytes ip_version
      → address_bit cidr_addr k ≡ address_bit addr k

  abbrev Masked : Type 0
  Masked =
      bit_and (octet cidr_addr full) (mask (prefix_len % 8))
      ≡ bit_and (octet addr full) (mask (prefix_len % 8))

  abbrev same_bytes : Bool
  same_bytes = full_bytes_match full 0 (address_bytes ip_version) cidr_addr addr

  abbrev partial : Bool
  partial = ltb 0 (prefix_len % 8) && ltb full (address_bytes ip_version)

  cidr_matches_sound : cidr_matches cidr_addr prefix_len addr ip_version ≡ true → Agree
  unfolding cidr_matches
  cidr_matches_sound h k short inside =
      let whole : same_bytes ≡ true = ground arith in
      elim (Bool-cases (ltb (k / 8) full)) [
        | inl before ↦
            ap (λ b. bit b (k % 8))
              (full_bytes_match_sound (address_bytes ip_version) cidr_addr addr full 0 whole (k / 8)
                (omega arith) (ground (arith, before)) (omega arith))
        | inr reached ↦
            let last : k / 8 ≡ full = ground (arith, reached) in
            let rest : partial ≡ true = ground (arith, last) in
            let masked : Masked = ground (arith, whole, rest) in
            rw last (
              masked-bits (prefix_len % 8) (octet cidr_addr full) (octet addr full) (omega arith)
                (cidr full) (bytes full) masked (k % 8) (omega (arith, last)))
      ]

  byte_at : (j k : ℕ) → k < 8 → ((8 * j + k) / 8 ≡ j) × ((8 * j + k) % 8 ≡ k)
  byte_at j k small = (omega arith, omega arith)

  at_byte :
      Agree
      → (j k : ℕ) → k < 8
      → 8 * j + k < prefix_len
      → j < address_bytes ip_version
      → bit (octet cidr_addr j) k ≡ bit (octet addr j) k
  at_byte h j k small short inside =
      let e = byte_at j k small in
      subst (λ q. bit (octet cidr_addr q) k ≡ bit (octet addr q) k) e.0
        (subst
          (λ m. bit (octet cidr_addr ((8 * j + k) / 8)) m ≡ bit (octet addr ((8 * j + k) / 8)) m)
          e.1 (h (8 * j + k) short (omega arith)))

  cidr_matches_complete : Agree → cidr_matches cidr_addr prefix_len addr ip_version ≡ true
  unfolding cidr_matches
  cidr_matches_complete h =
      let whole : same_bytes ≡ true =
        full_bytes_match_complete (address_bytes ip_version) cidr_addr addr full 0
          (λ j from below inside.
            bits-byte (octet cidr_addr j) (octet addr j) (cidr j) (bytes j)
              (λ k small. at_byte h j k small (omega arith) inside)) in
      elim (Bool-cases partial) [
        | inr no_more ↦ ground (arith, whole, no_more)
        | inl more ↦
            let masked : Masked =
              bits-masked (prefix_len % 8) (octet cidr_addr full) (octet addr full) (omega arith)
                (cidr full) (bytes full)
                (λ k small. at_byte h full k (omega arith) (omega arith) (ground (arith, more))) in
            ground (arith, whole, more, masked)
      ]

  -- An address matches a network exactly if they agree in every bit of the prefix that an address of
  -- the version has, for addresses of bytes.
  pub cidr_matches_lem : (cidr_matches cidr_addr prefix_len addr ip_version ≡ true) ↔ (
      (k : ℕ)
      → k < prefix_len
      → k < 8 * address_bytes ip_version
      → address_bit cidr_addr k ≡ address_bit addr k)
  cidr_matches_lem = (cidr_matches_sound, cidr_matches_complete)
