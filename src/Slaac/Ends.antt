-- ===== src/Slaac/Ends.antt =====
-- Reading a router advertisement ends on any input, and reads no byte that is not there.
use mvirt.Prelude.{
  ℕ, zero, suc, ◌+◌, ◌*◌, ◌≤◌, ◌<◌, ◌≡◌, refl, ap, Bool, true, false, List, [], ◌∷◌, ◌++◌, length,
  get_elem?-some, leb, ltb, nat_eq, ◌&&◌, ◌||◌, arith, if◌then◌else◌,
}
use package.mvirt.Slaac.{
  Parsed, ok, ◌>>=◌, in_range, byte, slice, be_u16, be_u32, PrefixInfo, RouterAdvertisement,
  Ipv6Addr, read_prefix, read_option, read_options, parse_router_advertisement,
}

-- A reading succeeds, and what it gives has a property.
record Reads {A : Type 0} (P : A → Type 0) (m : Parsed A) : Type 0 where
  result : A
  is_ok : m ≡ ok result
  holds : P result

module _ {A : Type 0} {P : A → Type 0} where
  Reads-ok : (a : A) → P a → Reads P (ok a)
  Reads-ok a p = record { result = a; is_ok = refl; holds = p }

  Reads-if :
      (b : Bool) (m n : Parsed A)
      → (b ≡ true → Reads P m)
      → (b ≡ false → Reads P n)
      → Reads P (if b then m else n)
  Reads-if true m n km kn = km refl
  Reads-if false m n km kn = kn refl

module _ {A B : Type 0} {P : B → Type 0} where
  Reads-bind :
      {Q : A → Type 0} (m : Parsed A) (f : A → Parsed B)
      → Reads Q m
      → ((a : A) → Q a → Reads P (f a))
      → Reads P (m >>= f)
  Reads-bind m f k next = rw k.is_ok (next k.result k.holds)

abbrev Any : {A : Type 0} → A → Type 0
Any a = Unit {0}

byte-Reads : (packet : List ℕ) (i : ℕ) → i < length packet → Reads Any (byte packet i)
unfolding byte
byte-Reads packet i h =
    let (b, there) = get_elem?-some packet i h in
    record { result = b; is_ok = ap in_range there; holds = tt }

be_u16-Reads : (packet : List ℕ) (i : ℕ) → i + 1 < length packet → Reads Any (be_u16 packet i)
unfolding be_u16
be_u16-Reads packet i h =
    Reads-bind _ _ (byte-Reads packet i (omega arith))
      λ b0 _. Reads-bind _ _ (byte-Reads packet (i + 1) h) λ b1 _. Reads-ok _ tt

be_u32-Reads : (packet : List ℕ) (i : ℕ) → i + 3 < length packet → Reads Any (be_u32 packet i)
unfolding be_u32
be_u32-Reads packet i h =
    Reads-bind _ _ (be_u16-Reads packet i (omega arith))
      λ high _. Reads-bind _ _ (be_u16-Reads packet (i + 2) (omega arith)) λ low _. Reads-ok _ tt

slice-Reads :
    (packet : List ℕ) (from count : ℕ)
    → from + count ≤ length packet
    → Reads Any (slice packet from count)
unfolding slice
slice-Reads packet from count h =
    Reads-if (leb (from + count) (length packet)) _ _ (λ _. Reads-ok _ tt)
      (λ no. absurd (ground arith))

read_prefix-Reads :
    (packet : List ℕ) (pos : ℕ) → pos + 32 ≤ length packet → Reads Any (read_prefix packet pos)
unfolding read_prefix
read_prefix-Reads packet pos h = Reads-bind _ _ (byte-Reads packet (pos + 2) (omega arith)) λ _ _.
    Reads-bind _ _ (byte-Reads packet (pos + 3) (omega arith)) λ _ _.
      Reads-bind _ _ (be_u32-Reads packet (pos + 4) (omega arith)) λ _ _.
        Reads-bind _ _ (be_u32-Reads packet (pos + 8) (omega arith)) λ _ _.
          Reads-bind _ _ (slice-Reads packet (pos + 16) 16 (omega arith)) λ _ _. Reads-ok _ tt

length-snoc : {A : Type 0} (xs : List A) (x : A) → length (xs ++ x ∷ []) ≡ length xs + 1
length-snoc [] x = refl
length-snoc (y ∷ xs) x = omega (arith, length-snoc xs x)

-- An option of fewer than 32 bytes adds no prefix, another at most one.
read_option-Reads :
    (packet : List ℕ) (pos opt_type opt_len : ℕ) (prefixes : List PrefixInfo)
    → pos + opt_len ≤ length packet
    → Reads
        (λ more. 32 * length more ≤ 32 * length prefixes + opt_len)
        (read_option packet pos opt_type opt_len prefixes)
unfolding read_option
read_option-Reads packet pos opt_type opt_len prefixes h =
    Reads-if (nat_eq opt_type 3 && leb 32 opt_len) _ _
      (λ both.
        let long : 32 ≤ opt_len = ground arith in
        Reads-bind _ _ (read_prefix-Reads packet pos (omega arith))
          λ info _. Reads-ok _ (omega (arith, length-snoc prefixes info)))
      (λ _. Reads-ok _ (omega arith))

read_options-Reads :
    (fuel : ℕ) (packet : List ℕ) (pos : ℕ) (prefixes : List PrefixInfo)
    → pos ≤ length packet
    → length packet < pos + fuel
    → Reads
        (λ more. 32 * length more + pos ≤ 32 * length prefixes + length packet)
        (read_options fuel packet pos prefixes)
unfolding read_options
read_options-Reads zero packet pos prefixes h enough = absurd (omega arith)
read_options-Reads (suc fuel) packet pos prefixes h enough =
    Reads-if (leb (pos + 2) (length packet)) _ _
      (λ more.
        let two : pos + 2 ≤ length packet = ground arith in
        Reads-bind _ _ (byte-Reads packet pos (omega arith)) λ opt_type _.
          Reads-bind _ _ (byte-Reads packet (pos + 1) (omega arith)) λ units _.
            Reads-if (nat_eq (units * 8) 0 || ltb (length packet) (pos + units * 8)) _ _
              (λ _. Reads-ok _ (omega arith))
              λ goes_on.
                let fits : pos + units * 8 ≤ length packet = ground arith in
                let moves : 0 < units = ground arith in
                Reads-bind _ _ (read_option-Reads packet pos opt_type (units * 8) prefixes fits)
                  λ ps bound.
                    weaken units ps bound
                      (read_options-Reads fuel packet (pos + units * 8) ps fits (omega arith)))
      (λ _. Reads-ok _ (omega arith))
  where
    weaken :
        (units : ℕ) (ps : List PrefixInfo)
        → 32 * length ps ≤ 32 * length prefixes + units * 8
        → Reads
            (λ more. 32 * length more + (pos + units * 8) ≤ 32 * length ps + length packet)
            (read_options fuel packet (pos + units * 8) ps)
        → Reads
            (λ more. 32 * length more + pos ≤ 32 * length prefixes + length packet)
            (read_options fuel packet (pos + units * 8) ps)
    weaken units ps bound k = record {
      result = k.result;
      is_ok = k.is_ok;
      holds = omega (arith, k.holds);
    }

parse-Reads :
    (packet : List ℕ) (router_addr : Ipv6Addr)
    → 16 ≤ length packet
    → Reads
        (λ ra. (ra.router_addr ≡ router_addr) × (32 * length ra.prefixes + 16 ≤ length packet))
        (parse_router_advertisement packet router_addr)
unfolding parse_router_advertisement
parse-Reads packet router_addr h =
    Reads-if (ltb (length packet) 16) _ _ (λ short. absurd (ground arith))
      λ _. Reads-bind _ _ (be_u16-Reads packet 6 (omega arith)) λ lifetime _.
        Reads-bind _ _ (read_options-Reads (suc (length packet)) packet 16 [] h (omega arith))
          λ prefixes bound. Reads-ok _ (refl, omega (arith, bound))

-- A packet of at least sixteen bytes, whatever is in them, is parsed: the loop over its options
-- ends, and no byte is read that is not there. Each prefix that is found takes 32 bytes of it.
pub parse_router_advertisement_total :
    (packet : List ℕ) (router_addr : Ipv6Addr)
    → 16 ≤ length packet
    → (ra : RouterAdvertisement) × (parse_router_advertisement packet router_addr ≡ ok ra)
      × (ra.router_addr ≡ router_addr)
      × (32 * length ra.prefixes + 16 ≤ length packet)
parse_router_advertisement_total packet router_addr h =
    let k = parse-Reads packet router_addr h in (k.result, k.is_ok, k.holds.0, k.holds.1)
