-- ===== src/Firewall/Rule.antt =====
-- mvirt-ebpf/programs/src/lib.rs: `SecurityRule`, and from tc_egress.rs, in the same words in
-- tc_ingress.rs, whether a packet meets a rule. An address is the list of its sixteen bytes.
use Prim.Native.Nat.{bit_and}
use mvirt.Prelude.{
  ℕ, zero, suc, ◌+◌, ◌-◌, ◌*◌, ◌/◌, ◌%◌, ◌^◌, Bool, true, false, not, List, get_elem?, unwrap_or,
  ltb, nat_eq, ◌&&◌, ◌||◌, if◌then◌else◌,
}

pub record SecurityRule : Type 0 where
  pub enabled : ℕ
  pub direction : ℕ
  pub protocol : ℕ
  pub ip_version : ℕ
  pub port_start : ℕ
  pub port_end : ℕ
  pub cidr_addr : List ℕ
  pub cidr_prefix_len : ℕ

abbrev pub direction_ingress : ℕ
direction_ingress = 0

abbrev pub direction_egress : ℕ
direction_egress = 1

abbrev pub proto_all : ℕ
proto_all = 0

abbrev pub ipproto_tcp : ℕ
ipproto_tcp = 6

abbrev pub ipproto_udp : ℕ
ipproto_udp = 17

-- `addr[i]`: the programs read none but the sixteen bytes that are there.
abbrev pub octet : List ℕ → ℕ → ℕ
octet addr i = unwrap_or (get_elem? addr i) 0

abbrev pub address_bytes : ℕ → ℕ
address_bytes ip_version = if nat_eq ip_version 4 then 4 else 16

-- `0xffu8 << (8 - bits)`.
abbrev pub mask : ℕ → ℕ
mask bits = 0xff * 2 ^ (8 - bits) % 256

-- The loop over whole bytes from `i` on, with the rounds that `full_bytes` leaves.
unfoldable pub full_bytes_match : ℕ → ℕ → ℕ → List ℕ → List ℕ → Bool
full_bytes_match zero i bytes cidr_addr addr = true
full_bytes_match (suc left) i bytes cidr_addr addr =
    let later = full_bytes_match left (i + 1) bytes cidr_addr addr in
    if ltb i bytes
    then (if nat_eq (octet cidr_addr i) (octet addr i) then later else false)
    else true

unfoldable pub cidr_matches : List ℕ → ℕ → List ℕ → ℕ → Bool
cidr_matches cidr_addr prefix_len addr ip_version =
    let bytes = address_bytes ip_version in
    let full_bytes = prefix_len / 8 in
    let remaining_bits = prefix_len % 8 in
    if full_bytes_match full_bytes 0 bytes cidr_addr addr
    then (if ltb 0 remaining_bits && ltb full_bytes bytes
        then nat_eq (bit_and (octet cidr_addr full_bytes) (mask remaining_bits))
            (bit_and (octet addr full_bytes) (mask remaining_bits))
        else true)
    else false

-- The port does not meet the range: looked at for TCP and UDP only.
abbrev pub port_outside : SecurityRule → ℕ → ℕ → Bool
port_outside rule port protocol =
    (nat_eq protocol ipproto_tcp || nat_eq protocol ipproto_udp)
    && (not (nat_eq rule.port_start 0) && (ltb port rule.port_start || ltb rule.port_end port))

unfoldable pub rule_matches : SecurityRule → List ℕ → ℕ → ℕ → ℕ → Bool
rule_matches rule addr port protocol ip_version =
    if not (nat_eq rule.ip_version 0) && not (nat_eq rule.ip_version ip_version)
    then false
    else if not (nat_eq rule.protocol proto_all) && not (nat_eq rule.protocol protocol)
    then false
    else if port_outside rule port protocol
    then false
    else if ltb 0 rule.cidr_prefix_len
        && not (cidr_matches rule.cidr_addr rule.cidr_prefix_len addr ip_version)
    then false
    else true
