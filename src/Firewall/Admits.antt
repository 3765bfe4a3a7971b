-- ===== src/Firewall/Admits.antt =====
-- What `check_security_ingress` of mvirt-ebpf/programs/src/tc_ingress.rs lets in.
use mathlib.Core.Option.{some-injective}
use mathlib.Core.Path.{subst}
use mvirt.Prelude.{
  ℕ, ◌+◌, ◌≤◌, ◌<◌, ◌≡◌, ◌∙◌, sym, ap, ◌↔◌, ◌⊎◌, inl, inr, Bool, true, false, none, some, is_some,
  Option-cases, Bool-cases, arith,
}
use mvirt.Firewall.Rule.{direction_ingress}
use mvirt.Firewall.Conn.{
  ConnTrackKey, ConnTrackEntry, ConnTrack, reverse, get_entry, insert_entry, AllKeys,
  get_entry-AllKeys, insert_entry-AllKeys, with_state, ct_state_new,
}
use mvirt.Firewall.Check.{
  NicSecurityConfig, Settings, enabled_only, hit_at, scan, max_iter, rules_end, established,
  check_security_ingress,
}
use mvirt.Firewall.Scan.{scan_sound, scan_complete}

-- No rules are in force for a NIC.
abbrev pub Unfiltered : Settings → ℕ → Type 0
Unfiltered settings ifindex = enabled_only (settings.nic_security ifindex) ≡ none

-- One of the first 256 rules of a NIC is for inbound packets, is enabled, and is met.
pub record Ruled (settings : Settings) (ifindex : ℕ) (packet : ConnTrackKey) : Type 0 where
  pub config : NicSecurityConfig
  pub in_force : enabled_only (settings.nic_security ifindex) ≡ some config
  pub place : ℕ
  pub from : config.rules_start ≤ place
  pub below : place < rules_end config
  pub near : place < config.rules_start + 256
  pub hits : hit_at direction_ingress packet.src_addr settings packet place ≡ true

abbrev pub Tracked : ConnTrackKey → ConnTrack → Type 0
Tracked packet track = is_some (get_entry (reverse packet) track) ≡ true

module _ (settings : Settings) (ifindex : ℕ) (packet : ConnTrackKey) (now : ℕ)
    (track : ConnTrack) where
  abbrev hit : ℕ → Bool
  hit = hit_at direction_ingress packet.src_addr settings packet

  abbrev Found : NicSecurityConfig → Type 0
  Found config = scan max_iter hit config.rules_start (rules_end config) ≡ true

  Found-Ruled :
      (config : NicSecurityConfig)
      → enabled_only (settings.nic_security ifindex) ≡ some config
      → Found config
      → Ruled settings ifindex packet
  Found-Ruled config here found =
      let (j, from, below, near, hits) =
        scan_sound max_iter hit config.rules_start (rules_end config) found in
      record {
        config = config;
        in_force = here;
        place = j;
        from = from;
        below = below;
        near = near;
        hits = hits;
      }

  Ruled-Found : (r : Ruled settings ifindex packet) → Found r.config
  Ruled-Found r =
      scan_complete max_iter hit r.config.rules_start (rules_end r.config) r.place r.from r.below
        r.near r.hits

  abbrev Verdict : Bool → ConnTrack → Type 0
  Verdict passes after = check_security_ingress settings ifindex packet now track ≡ (passes, after)

  -- The branches, one of which is taken.
  data Branch : Type 0 where
    off : Unfiltered settings ifindex → Verdict true track → Branch
    reply :
        (entry : ConnTrackEntry)
        → Tracked packet track
        → Verdict true (insert_entry (reverse packet) (established entry now) track)
        → Branch
    found :
        Ruled settings ifindex packet
        → Verdict true (insert_entry packet (with_state ct_state_new now) track)
        → Branch
    missed :
        (config : NicSecurityConfig)
        → enabled_only (settings.nic_security ifindex) ≡ some config
        → get_entry (reverse packet) track ≡ none
        → scan max_iter hit config.rules_start (rules_end config) ≡ false
        → Verdict false track
        → Branch

  branch : Branch
  unfolding check_security_ingress
  branch = elim (Option-cases (enabled_only (settings.nic_security ifindex))) [
    | inl none_on ↦ off none_on (ground (arith, none_on))
    | inr (config, on) ↦ elim (Option-cases (get_entry (reverse packet) track)) [
      | inr (entry, there) ↦ reply entry (ap is_some there) (ground (arith, on, there))
      | inl absent ↦ elim (Bool-cases (scan max_iter hit config.rules_start (rules_end config))) [
        | inl met ↦ found (Found-Ruled config on met) (ground (arith, on, absent, met))
        | inr unmet ↦ missed config on absent unmet (ground (arith, on, absent, unmet))
      ]
    ]
  ]

  sound :
      (check_security_ingress settings ifindex packet now track).0 ≡ true
      → Unfiltered settings ifindex ⊎ (Ruled settings ifindex packet ⊎ Tracked packet track)
  sound passed = elim branch [
    | off none_on _ ↦ inl none_on
    | reply _ there _ ↦ inr (inr there)
    | found r _ ↦ inr (inl r)
    | missed _ _ _ _ verdict ↦ absurd (ground (arith, verdict))
  ]

  complete :
      Unfiltered settings ifindex ⊎ (Ruled settings ifindex packet ⊎ Tracked packet track)
      → (check_security_ingress settings ifindex packet now track).0 ≡ true
  complete why = elim branch [
    | off _ verdict ↦ ap (λ v. v.0) verdict
    | reply _ _ verdict ↦ ap (λ v. v.0) verdict
    | found _ verdict ↦ ap (λ v. v.0) verdict
    | missed config on absent unmet _ ↦ elim why [
      | inl none_on ↦ absurd (ground (arith, none_on, on))
      | inr (inr there) ↦ absurd (ground (arith, there, absent))
      | inr (inl r) ↦
          let same : r.config ≡ config = some-injective r.config config (sym r.in_force ∙ on) in
          absurd (ground (arith, subst Found same (Ruled-Found r), unmet))
    ]
  ]

  pub check_security_ingress_lem :
      ((check_security_ingress settings ifindex packet now track).0 ≡ true)
      ↔ (Unfiltered settings ifindex ⊎ (Ruled settings ifindex packet ⊎ Tracked packet track))
  check_security_ingress_lem = (sound, complete)

  -- What is tracked afterwards was tracked, or is a packet that a rule let in.
  pub check_security_ingress-AllKeys :
      (P : ConnTrackKey → Type 0)
      → (Ruled settings ifindex packet → P packet)
      → AllKeys P track
      → AllKeys P (check_security_ingress settings ifindex packet now track).1
  check_security_ingress-AllKeys P new all = elim branch [
    | off _ verdict ↦ rw verdict all
    | reply entry there verdict ↦ rw verdict (
        insert_entry-AllKeys P (reverse packet) (established entry now) track
          (get_entry-AllKeys P (reverse packet) track all there) all)
    | found r verdict ↦
        rw verdict (insert_entry-AllKeys P packet (with_state ct_state_new now) track (new r) all)
    | missed _ _ _ _ verdict ↦ rw verdict all
  ]
