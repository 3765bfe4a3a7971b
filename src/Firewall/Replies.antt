-- ===== src/Firewall/Replies.antt =====
-- What the filter of mvirt-ebpf/programs makes of replies.
use mathlib.Core.List.Memᴰ.{head, tail}
use mvirt.Prelude.{ℕ, ◌≡◌, refl, ◌⊎◌, inl, inr, true, List, [], ◌∷◌, Memᴰ}
use mvirt.Firewall.Conn.{ConnTrackKey, reverse, AllKeys, AllKeys-mono, get_entry-AllKeys}
use mvirt.Firewall.Check.{Settings, check_security_ingress}
use mvirt.Firewall.History.{Packet, outbound, inbound, see, see_all}
use mvirt.Firewall.Admits.{
  Unfiltered, Ruled, check_security_ingress_lem, check_security_ingress-AllKeys,
}

-- A rule let a packet in, among those of a history.
pub record CameIn (settings : Settings) (earlier : List Packet) (key : ConnTrackKey) : Type 0 where
  pub ifindex : ℕ
  pub now_ns : ℕ
  pub there : Memᴰ (inbound ifindex key now_ns) earlier
  pub ruled : Ruled settings ifindex key

module _ (egress ingress : Settings) where
  CameIn-later :
      (packet : Packet) (earlier : List Packet) (key : ConnTrackKey)
      → CameIn ingress earlier key
      → CameIn ingress (packet ∷ earlier) key
  CameIn-later packet earlier key c = record {
    ifindex = c.ifindex;
    now_ns = c.now_ns;
    there = tail c.there;
    ruled = c.ruled;
  }

  see_all-AllKeys :
      (earlier : List Packet)
      → AllKeys (CameIn ingress earlier) (see_all egress ingress earlier).ingress
  unfolding see_all see
  see_all-AllKeys [] = tt
  see_all-AllKeys (outbound ifindex key now_ns ∷ earlier) =
      AllKeys-mono (CameIn ingress earlier) (see_all egress ingress earlier).ingress
        (CameIn-later (outbound ifindex key now_ns) earlier) (see_all-AllKeys earlier)
  see_all-AllKeys (inbound ifindex key now_ns ∷ earlier) =
      check_security_ingress-AllKeys ingress ifindex key now_ns
        (see_all egress ingress earlier).ingress
        (CameIn ingress (inbound ifindex key now_ns ∷ earlier))
        (λ r. record { ifindex = ifindex; now_ns = now_ns; there = head refl; ruled = r })
        (AllKeys-mono (CameIn ingress earlier) (see_all egress ingress earlier).ingress
          (CameIn-later (inbound ifindex key now_ns) earlier) (see_all-AllKeys earlier))

  -- Whatever packets the two programs have seen since they were loaded, with the rules as they are: a
  -- packet is let in only if no rules are in force for its NIC, or a rule lets it in, or it answers
  -- an inbound packet that a rule let in.
  pub inbound_let_in :
      (earlier : List Packet) (ifindex : ℕ) (key : ConnTrackKey) (now_ns : ℕ)
      → (check_security_ingress ingress ifindex key now_ns
          (see_all egress ingress earlier).ingress).0
        ≡ true
      → Unfiltered ingress ifindex
        ⊎ (Ruled ingress ifindex key ⊎ CameIn ingress earlier (reverse key))
  inbound_let_in earlier ifindex key now_ns passed =
      let track = (see_all egress ingress earlier).ingress in
      elim ((check_security_ingress_lem ingress ifindex key now_ns track).0 passed) [
        | inl off ↦ inl off
        | inr (inl r) ↦ inr (inl r)
        | inr (inr there) ↦ inr (
            inr (
              get_entry-AllKeys (CameIn ingress earlier) (reverse key) track
                (see_all-AllKeys earlier) there))
      ]
