-- ===== src/Firewall/Check.antt =====
-- mvirt-ebpf/programs/src/tc_egress.rs and tc_ingress.rs: `check_security_egress` and
-- `check_security_ingress`, with the maps that they read. The arguments that describe a packet are
-- its connection tracking key; the time is an argument.
use Prim.Native.Nat.{bit_or}
use mvirt.Prelude.{
  ℕ, zero, suc, ◌+◌, ◌%◌, ◌^◌, Bool, true, false, not, Option, none, some, List, ltb, nat_eq, ◌&&◌,
  if◌then◌else◌, as_u32,
}
use mvirt.Firewall.Rule.{SecurityRule, direction_ingress, direction_egress, rule_matches}
use mvirt.Firewall.Conn.{
  ConnTrackKey, ConnTrackEntry, ConnTrack, reverse, with_state, ct_state_new, ct_state_established,
  ct_flag_seen_reply, get_entry, insert_entry,
}

pub record NicSecurityConfig : Type 0 where
  pub enabled : ℕ
  pub rules_start : ℕ
  pub rules_count : ℕ

-- The maps `NIC_SECURITY` and `SECURITY_RULES`, which the daemon writes.
pub record Settings : Type 0 where
  pub nic_security : ℕ → Option NicSecurityConfig
  pub security_rules : ℕ → Option SecurityRule

-- `Some(c) if c.enabled != 0`.
unfoldable pub enabled_only : Option NicSecurityConfig → Option NicSecurityConfig
enabled_only none = none
enabled_only (some c) = if nat_eq c.enabled 0 then none else some c

-- An enabled rule for a direction that a packet meets, by its remote address.
abbrev pub rule_hit : ℕ → List ℕ → ConnTrackKey → Option SecurityRule → Bool
rule_hit direction remote packet none = false
rule_hit direction remote packet (some rule) =
    not (nat_eq rule.enabled 0)
    && (nat_eq rule.direction direction
        && rule_matches rule remote packet.dst_port packet.protocol packet.ip_version)

-- `while i < end && iter < max_iter`, with the rounds that are left. Below `end`, `i += 1` does not
-- overflow.
unfoldable pub scan : ℕ → (ℕ → Bool) → ℕ → ℕ → Bool
scan zero hit i end = false
scan (suc left) hit i end =
    let later = scan left hit (i + 1) end in
    if ltb i end then (if hit i then true else later) else false

abbrev pub max_iter : ℕ
max_iter = 256

abbrev pub rules_end : NicSecurityConfig → ℕ
rules_end config = as_u32 (config.rules_start + config.rules_count)

abbrev pub hit_at : ℕ → List ℕ → Settings → ConnTrackKey → ℕ → Bool
hit_at direction remote settings packet j =
    rule_hit direction remote packet (settings.security_rules j)

abbrev pub established : ConnTrackEntry → ℕ → ConnTrackEntry
established entry now_ns = record {
  state = ct_state_established;
  flags = bit_or entry.flags ct_flag_seen_reply;
  last_seen_ns = now_ns;
  packet_count = (entry.packet_count + 1) % 2 ^ 64;
}

unfoldable pub check_security_ingress :
    Settings → ℕ → ConnTrackKey → ℕ → ConnTrack → Bool × ConnTrack
unfolding with_state reverse
check_security_ingress settings target_ifindex packet now_ns track =
    elim (enabled_only (settings.nic_security target_ifindex)) [
      | none ↦ (true, track)
      | some config ↦ elim (get_entry (reverse packet) track) [
        | some ct_entry ↦ (true, insert_entry (reverse packet) (established ct_entry now_ns) track)
        | none ↦
            if scan max_iter (hit_at direction_ingress packet.src_addr settings packet)
              config.rules_start (rules_end config)
            then (true, insert_entry packet (with_state ct_state_new now_ns) track)
            else (false, track)
      ]
    ]

-- Whether a rule is met makes no difference.
unfoldable pub check_security_egress :
    Settings → ℕ → ConnTrackKey → ℕ → ConnTrack → Bool × ConnTrack
unfolding with_state
check_security_egress settings ifindex packet now_ns track =
    elim (enabled_only (settings.nic_security ifindex)) [
      | none ↦ (true, track)
      | some config ↦
          let rule_matched =
            scan max_iter (hit_at direction_egress packet.dst_addr settings packet)
              config.rules_start (rules_end config) in
          (true, insert_entry packet (with_state ct_state_new now_ns) track)
    ]
