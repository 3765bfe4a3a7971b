-- ===== src/Slaac.antt =====
-- mvirt-one/src/utils/network/slaac.rs and `mac_to_eui64` of mvirt-one/src/utils/network/interface.rs:
-- how a pod's interface gets its IPv6 addresses from a router advertisement. An address is the list
-- of its bytes. The socket and netlink are the operating system's: what they answer is an argument.
pub mod Ends
use Prim.Native.Nat.{bit_xor}
use mvirt.Prelude.{
  ℕ, zero, suc, ◌+◌, ◌*◌, ◌/◌, ◌%◌, String, Bool, true, false, Option, none, some, List, [], ◌∷◌,
  ◌++◌, length, get_elem?, take, drop, leb, ltb, nat_eq, ◌&&◌, ◌||◌, if◌then◌else◌,
}

abbrev pub Ipv6Addr : Type 0
Ipv6Addr = List ℕ

pub record Mac : Type 0 where
  pub m0 : ℕ
  pub m1 : ℕ
  pub m2 : ℕ
  pub m3 : ℕ
  pub m4 : ℕ
  pub m5 : ℕ

pub record PrefixInfo : Type 0 where
  pub prefix : Ipv6Addr
  pub prefix_len : ℕ
  pub autonomous : Bool
  pub valid_lifetime : ℕ
  pub preferred_lifetime : ℕ

pub record RouterAdvertisement : Type 0 where
  pub router_addr : Ipv6Addr
  pub router_lifetime : ℕ
  pub prefixes : List PrefixInfo

-- `InvalidPacket`, an index out of range, at which the code panics, and a loop that does not end
-- within its fuel.
pub data Parsed (A : Type 0) : Type 0 where
  ok : A → Parsed A
  invalid_packet : String → Parsed A
  panicked : Parsed A
  stuck : Parsed A

infixl 5 ◌>>=◌
abbrev pub ◌>>=◌ : {A B : Type 0} → Parsed A → (A → Parsed B) → Parsed B
ok a >>= f = f a
invalid_packet reason >>= f = invalid_packet reason
panicked >>= f = panicked
stuck >>= f = stuck

-- `data[i]`.
abbrev pub in_range : {A : Type 0} → Option A → Parsed A
in_range none = panicked
in_range (some a) = ok a

unfoldable pub byte : List ℕ → ℕ → Parsed ℕ
byte packet i = in_range (get_elem? packet i)

-- `data[from..from + count]`.
unfoldable pub slice : List ℕ → ℕ → ℕ → Parsed (List ℕ)
slice packet from count =
    if leb (from + count) (length packet) then ok (take count (drop from packet)) else panicked

-- `from_be_bytes`.
unfoldable pub be_u16 : List ℕ → ℕ → Parsed ℕ
be_u16 packet i = do b0 ← byte packet i; b1 ← byte packet (i + 1); ok (b0 * 256 + b1)

unfoldable pub be_u32 : List ℕ → ℕ → Parsed ℕ
be_u32 packet i = do high ← be_u16 packet i; low ← be_u16 packet (i + 2); ok (high * 65536 + low)

-- The Prefix Information option at `pos`. Bit 6 of the flags is the autonomous flag.
unfoldable pub read_prefix : List ℕ → ℕ → Parsed PrefixInfo
read_prefix packet pos = do
  prefix_len ← byte packet (pos + 2)
  flags ← byte packet (pos + 3)
  valid_lifetime ← be_u32 packet (pos + 4)
  preferred_lifetime ← be_u32 packet (pos + 8)
  prefix_bytes ← slice packet (pos + 16) 16
  ok (record {
    prefix = prefix_bytes;
    prefix_len = prefix_len;
    autonomous = nat_eq (flags / 64 % 2) 1;
    valid_lifetime = valid_lifetime;
    preferred_lifetime = preferred_lifetime;
  })

-- The option at `pos` adds a prefix, or nothing.
unfoldable pub read_option : List ℕ → ℕ → ℕ → ℕ → List PrefixInfo → Parsed (List PrefixInfo)
read_option packet pos opt_type opt_len prefixes =
    if nat_eq opt_type 3 && leb 32 opt_len
    then (read_prefix packet pos >>= λ info. ok (prefixes ++ info ∷ []))
    else ok prefixes

-- `while pos + 2 <= data.len()`. The fuel is for the rounds.
unfoldable pub read_options : ℕ → List ℕ → ℕ → List PrefixInfo → Parsed (List PrefixInfo)
read_options zero packet pos prefixes = stuck
read_options (suc fuel) packet pos prefixes =
    if leb (pos + 2) (length packet)
    then (do
      opt_type ← byte packet pos
      units ← byte packet (pos + 1)
      let opt_len = units * 8
      if nat_eq opt_len 0 || ltb (length packet) (pos + opt_len) then ok prefixes else (do
        more ← read_option packet pos opt_type opt_len prefixes
        read_options fuel packet (pos + opt_len) more))
    else ok prefixes

-- A round takes at least eight bytes, so there are no more rounds than bytes.
unfoldable pub parse_router_advertisement : List ℕ → Ipv6Addr → Parsed RouterAdvertisement
parse_router_advertisement packet router_addr =
    if ltb (length packet) 16 then invalid_packet "RA too short" else (do
      router_lifetime ← be_u16 packet 6
      prefixes ← read_options (suc (length packet)) packet 16 []
      ok (record {
        router_addr = router_addr;
        router_lifetime = router_lifetime;
        prefixes = prefixes;
      }))

abbrev pub icmpv6_router_advertisement : ℕ
icmpv6_router_advertisement = 134

-- What `receive_ra` makes of the bytes that came in, and of their source.
unfoldable pub receive_ra : List ℕ → Ipv6Addr → Parsed RouterAdvertisement
receive_ra packet source = if ltb (length packet) 16 then invalid_packet "RA too short" else (do
  kind ← byte packet 0
  if nat_eq kind icmpv6_router_advertisement
      then parse_router_advertisement packet source
      else invalid_packet "Not a Router Advertisement")

unfoldable pub mac_to_eui64 : Mac → List ℕ
mac_to_eui64 mac =
    bit_xor mac.m0 0x02 ∷ mac.m1 ∷ mac.m2 ∷ 0xff ∷ 0xfe ∷ mac.m3 ∷ mac.m4 ∷ mac.m5 ∷ []

unfoldable pub generate_link_local : Mac → Ipv6Addr
generate_link_local mac = 0xfe ∷ 0x80 ∷ 0 ∷ 0 ∷ 0 ∷ 0 ∷ 0 ∷ 0 ∷ mac_to_eui64 mac

-- The length of the prefix is not looked at.
unfoldable pub generate_address_from_prefix : Ipv6Addr → ℕ → Mac → Ipv6Addr
generate_address_from_prefix prefix prefix_len mac = take 8 prefix ++ mac_to_eui64 mac

pub data NetlinkCall : Type 0 where
  add_address_v6 : Ipv6Addr → ℕ → NetlinkCall
  add_route_v6 : Ipv6Addr → NetlinkCall

unfoldable pub add_addresses : List PrefixInfo → Mac → List NetlinkCall
add_addresses [] mac = []
add_addresses (info ∷ rest) mac =
    let later = add_addresses rest mac in
    if info.autonomous
    then NetlinkCall.add_address_v6 (generate_address_from_prefix info.prefix info.prefix_len mac)
        info.prefix_len
      ∷ later
    else later

-- The calls that are made; their errors are logged only.
unfoldable pub process_router_advertisement : RouterAdvertisement → Mac → List NetlinkCall
process_router_advertisement ra mac =
    add_addresses ra.prefixes mac
    ++ (if ltb 0 ra.router_lifetime then NetlinkCall.add_route_v6 ra.router_addr ∷ [] else [])
