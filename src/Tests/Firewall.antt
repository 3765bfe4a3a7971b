-- ===== src/Tests/Firewall.antt =====
-- A NIC that is open for one network and one port, and the filter at work.
use mvirt.Prelude.{
  ℕ, zero, suc, ◌<◌, ◌≡◌, refl, ◌⊎◌, ◌↔◌, true, false, none, some, List, [], ◌∷◌, nat_eq,
  if◌then◌else◌, ◌*◌, arith, any, leb,
}
use mvirt.Firewall.Rule.{SecurityRule, address_bytes, cidr_matches, full_bytes_match, rule_matches}
use mvirt.Firewall.Conn.{
  ConnTrackKey, reverse, get_entry, insert_entry, replace_entry, with_state, key_eq, bytes_eq,
}
use mvirt.Firewall.Check.{
  Settings, enabled_only, scan, check_security_ingress, check_security_egress,
}
use mvirt.Firewall.History.{Packet, outbound, inbound, see_all, see}
use mvirt.Firewall.Admits.{Unfiltered, Ruled}
use mvirt.Firewall.Replies.{CameIn, inbound_let_in}
use mvirt.Firewall.Cidr.{address_bit, IsBytes, cidr_matches_lem}

-- 10.0.0.0/12 and two addresses of it, as the programs hold them.
abbrev padded : ℕ → ℕ → ℕ → ℕ → List ℕ
padded a b c d = a ∷ b ∷ c ∷ d ∷ 0 ∷ 0 ∷ 0 ∷ 0 ∷ 0 ∷ 0 ∷ 0 ∷ 0 ∷ 0 ∷ 0 ∷ 0 ∷ 0 ∷ []

abbrev network : List ℕ
network = padded 10 0 0 0

abbrev vm : List ℕ
vm = padded 10 0 0 5

abbrev peer : List ℕ
peer = padded 10 15 255 7

abbrev stranger : List ℕ
stranger = padded 192 168 0 1

abbrev ssh : SecurityRule
ssh = record {
  enabled = 1;
  direction = 0;
  protocol = 6;
  ip_version = 4;
  port_start = 22;
  port_end = 22;
  cidr_addr = network;
  cidr_prefix_len = 12;
}

abbrev settings : Settings
settings = record {
  nic_security = λ i.
      if nat_eq i 3 then some (record { enabled = 1; rules_start = 0; rules_count = 1 }) else none;
  security_rules = λ i. if nat_eq i 0 then some ssh else none;
}

abbrev tcp : List ℕ → ℕ → List ℕ → ℕ → ConnTrackKey
tcp src src_port dst dst_port = record {
  src_addr = src;
  dst_addr = dst;
  src_port = src_port;
  dst_port = dst_port;
  protocol = 6;
  ip_version = 4;
}

-- A login from the network, then the VM's answer, then a request of the VM to a stranger.
abbrev history : List Packet
history =
    outbound 3 (tcp vm 5000 stranger 80) 30
    ∷ outbound 3 (tcp vm 22 peer 4000) 20
    ∷ inbound 3 (tcp peer 4000 vm 22) 10
    ∷ []

-- The stranger's answer is refused.
answer_refused :
    (check_security_ingress settings 3
      (tcp stranger 80 vm 5000)
      40
      (see_all settings settings history).ingress).0
    ≡ false
unfolding check_security_ingress check_security_egress see_all see enabled_only scan rule_matches
    cidr_matches full_bytes_match get_entry insert_entry replace_entry with_state reverse key_eq
    bytes_eq
answer_refused = refl

login_accepted :
    (check_security_ingress settings 3
      (tcp peer 4000 vm 22)
      40
      (see_all settings settings history).ingress).0
    ≡ true
unfolding check_security_ingress check_security_egress see_all see enabled_only scan rule_matches
    cidr_matches full_bytes_match get_entry insert_entry replace_entry with_state reverse key_eq
    bytes_eq
login_accepted = refl

inbound_let_in_example :
    Unfiltered settings 3
    ⊎ (Ruled settings 3 (tcp peer 4000 vm 22)
        ⊎ CameIn settings history (reverse (tcp peer 4000 vm 22)))
inbound_let_in_example =
    inbound_let_in settings settings history 3 (tcp peer 4000 vm 22) 40 login_accepted

any-IsBytes : (addr : List ℕ) → any (λ b. leb 256 b) addr ≡ false → IsBytes addr
unfolding any
any-IsBytes [] h i = omega arith
any-IsBytes (b ∷ rest) h zero = ground arith
any-IsBytes (b ∷ rest) h (suc i) = any-IsBytes rest (ground arith) i

network-IsBytes : IsBytes network
unfolding any
network-IsBytes = any-IsBytes network refl

peer-IsBytes : IsBytes peer
unfolding any
peer-IsBytes = any-IsBytes peer refl

cidr_matches_lem_example :
    (cidr_matches network 12 peer 4 ≡ true)
    ↔ ((k : ℕ) → k < 12 → k < 8 * address_bytes 4 → address_bit network k ≡ address_bit peer k)
cidr_matches_lem_example = cidr_matches_lem network peer 12 4 network-IsBytes peer-IsBytes

matched : cidr_matches network 12 peer 4 ≡ true
unfolding cidr_matches full_bytes_match
matched = refl
