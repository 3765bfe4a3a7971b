-- ===== src/Firewall/History.antt =====
-- The two programs of mvirt-ebpf/programs at work. mvirt-ebpf/src/ebpf_loader.rs loads them from two
-- files, so each has its own maps.
use mvirt.Prelude.{ℕ, List, [], ◌∷◌}
use mvirt.Firewall.Conn.{ConnTrackKey, ConnTrack}
use mvirt.Firewall.Check.{Settings, check_security_ingress, check_security_egress}

-- A packet, the NIC that it leaves or is meant for, and when the program sees it.
pub data Packet : Type 0 where
  outbound : ℕ → ConnTrackKey → ℕ → Packet
  inbound : ℕ → ConnTrackKey → ℕ → Packet

pub record Tracks : Type 0 where
  pub egress : ConnTrack
  pub ingress : ConnTrack

unfoldable pub see : Settings → Settings → Packet → Tracks → Tracks
see egress ingress (outbound ifindex packet now_ns) s = record s {
  egress = (check_security_egress egress ifindex packet now_ns s.egress).1;
}
see egress ingress (inbound ifindex packet now_ns) s = record s {
  ingress = (check_security_ingress ingress ifindex packet now_ns s.ingress).1;
}

-- A history of packets, the latest first.
unfoldable pub see_all : Settings → Settings → List Packet → Tracks
see_all egress ingress [] = record { egress = []; ingress = [] }
see_all egress ingress (packet ∷ earlier) =
    see egress ingress packet (see_all egress ingress earlier)
