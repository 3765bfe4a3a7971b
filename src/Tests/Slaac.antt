-- ===== src/Tests/Slaac.antt =====
-- A router advertisement with one prefix, and what an interface makes of it.
use mvirt.Prelude.{ℕ, ◌+◌, ◌*◌, ◌≤◌, ◌≡◌, refl, true, List, [], ◌∷◌, length, arith}
use mvirt.Slaac.{
  ok, RouterAdvertisement, Mac, NetlinkCall, parse_router_advertisement,
  process_router_advertisement, receive_ra, read_options, read_option, read_prefix, be_u32, be_u16,
  slice, byte, add_addresses, generate_address_from_prefix, mac_to_eui64,
}
use mvirt.Slaac.Ends.{parse_router_advertisement_total}

abbrev router : List ℕ
router = 0xfe ∷ 0x80 ∷ 0 ∷ 0 ∷ 0 ∷ 0 ∷ 0 ∷ 0 ∷ 0 ∷ 0 ∷ 0 ∷ 0 ∷ 0 ∷ 0 ∷ 0 ∷ 1 ∷ []

abbrev prefix : List ℕ
prefix = 0x20 ∷ 1 ∷ 0x0d ∷ 0xb8 ∷ 0 ∷ 0 ∷ 0 ∷ 7 ∷ 0 ∷ 0 ∷ 0 ∷ 0 ∷ 0 ∷ 0 ∷ 0 ∷ 0 ∷ []

abbrev advertisement : List ℕ
advertisement =
    134 ∷ 0 ∷ 0 ∷ 0 ∷ 64 ∷ 0 ∷ 7 ∷ 8 ∷ 0 ∷ 0 ∷ 0 ∷ 0 ∷ 0 ∷ 0 ∷ 0 ∷ 0 ∷ 3 ∷ 4 ∷ 64 ∷ 0xc0 ∷ 0 ∷ 1 ∷ 0
    ∷ 0 ∷ 0 ∷ 0 ∷ 0x10 ∷ 0 ∷ 0 ∷ 0 ∷ 0 ∷ 0 ∷ prefix

abbrev heard : RouterAdvertisement
heard = record {
  router_addr = router;
  router_lifetime = 1800;
  prefixes =
      record {
        prefix = prefix;
        prefix_len = 64;
        autonomous = true;
        valid_lifetime = 65536;
        preferred_lifetime = 4096;
      }
      ∷ [];
}

received : receive_ra advertisement router ≡ ok heard
unfolding receive_ra parse_router_advertisement read_options read_option read_prefix be_u32 be_u16
    slice byte
received = refl

-- The option's length says more than is there: it is passed over.
cut_short :
    receive_ra
      (134 ∷ 0 ∷ 0 ∷ 0 ∷ 64 ∷ 0 ∷ 7 ∷ 8 ∷ 0 ∷ 0 ∷ 0 ∷ 0 ∷ 0 ∷ 0 ∷ 0 ∷ 0 ∷ 3 ∷ 4 ∷ 64 ∷ [])
      router
    ≡ ok (record { router_addr = router; router_lifetime = 1800; prefixes = [] })
unfolding receive_ra parse_router_advertisement read_options read_option read_prefix be_u32 be_u16
    slice byte
cut_short = refl

abbrev mac : Mac
mac = record { m0 = 0x52; m1 = 0x54; m2 = 0; m3 = 0x12; m4 = 0x34; m5 = 0x56 }

configured :
    process_router_advertisement heard mac
    ≡ NetlinkCall.add_address_v6
        (0x20 ∷ 1 ∷ 0x0d ∷ 0xb8 ∷ 0 ∷ 0 ∷ 0 ∷ 7 ∷ 0x50 ∷ 0x54 ∷ 0 ∷ 0xff ∷ 0xfe ∷ 0x12 ∷ 0x34 ∷ 0x56
          ∷ [])
        64
      ∷ NetlinkCall.add_route_v6 router
      ∷ []
unfolding process_router_advertisement add_addresses generate_address_from_prefix mac_to_eui64
configured = refl

parse_router_advertisement_total_example :
    (ra : RouterAdvertisement) × (parse_router_advertisement advertisement router ≡ ok ra)
    × (ra.router_addr ≡ router)
    × (32 * length ra.prefixes + 16 ≤ 48)
parse_router_advertisement_total_example =
    parse_router_advertisement_total advertisement router (omega arith)
