-- ===== src/Routing/Target.antt =====
-- mvirt-net/src/routing.rs: prefixes, the targets of routes, and what a reactor does with a packet.
use mvirt.Prelude.{Option, ℕ, String, List}

-- A network of the crate `ipnet`: an address as a number, and the length of the prefix.
pub record IpNet : Type 0 where
  pub addr : ℕ
  pub prefix_len : ℕ

abbrev pub Ipv4Net : Type 0
Ipv4Net = IpNet

abbrev pub Ipv6Net : Type 0
Ipv6Net = IpNet

pub data IpPrefix : Type 0 where
  v4 : Ipv4Net → IpPrefix
  v6 : Ipv6Net → IpPrefix

-- The id of a reactor is its UUID.
pub data RouteTarget : Type 0 where
  reactor : String → RouteTarget
  vhost : String → RouteTarget
  tun : ℕ → RouteTarget
  custom : ℕ → List ℕ → RouteTarget
  discard : RouteTarget

pub data RoutingDecision : Type 0 where
  to_tun : ℕ → RoutingDecision
  to_vhost : String → RoutingDecision
  discard : RoutingDecision

-- The map of the crate `prefix_trie`, for addresses of a number of bits. Its removal gives back what
-- was there.
pub record PrefixTrie : Type 1 where
  pub Map : ℕ → Type 0 → Type 0
  pub new : (bits : ℕ) (V : Type 0) → Map bits V
  pub insert : (bits : ℕ) (V : Type 0) → Map bits V → IpNet → V → Map bits V
  pub remove : (bits : ℕ) (V : Type 0) → Map bits V → IpNet → Option V × Map bits V
  pub get_lpm : (bits : ℕ) (V : Type 0) → Map bits V → IpNet → Option (IpNet × V)
