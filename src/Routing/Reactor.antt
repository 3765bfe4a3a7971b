-- ===== src/Routing/Reactor.antt =====
-- mvirt-net/src/reactor/mod.rs: what a reactor does with a command, and where it sends a packet.
use mvirt.Prelude.{
  ℕ, ◌+◌, ◌*◌, Option, none, some, List, [], ◌∷◌, length, ltb, if◌then◌else◌, zero, suc,
}
use mvirt.Routing.Target.{RouteTarget, RoutingDecision, PrefixTrie}
use mvirt.Routing.Table.{
  RoutingTables, FirstKey, new_table, add_table, remove_table, change_table, set_default,
  get_default, lookup_v4, lookup_v6,
}
use mvirt.Routing.Update.{ReactorCommand, with_route, without_route}

unfoldable pub route_target_to_decision : RouteTarget → RoutingDecision
route_target_to_decision (RouteTarget.reactor id) = RoutingDecision.to_vhost id
route_target_to_decision (RouteTarget.vhost id) = RoutingDecision.discard
route_target_to_decision (RouteTarget.tun if_index) = RoutingDecision.to_tun if_index
route_target_to_decision (RouteTarget.custom target_type bytes) = RoutingDecision.discard
route_target_to_decision RouteTarget.discard = RoutingDecision.discard

-- The number that `count` bytes from an offset on stand for, the first byte first: how `smoltcp`
-- reads an address.
unfoldable pub address_at : ℕ → ℕ → ℕ → List ℕ → ℕ
address_at offset count acc [] = acc
address_at (suc offset) count acc (b ∷ rest) = address_at offset count acc rest
address_at zero zero acc (b ∷ rest) = acc
address_at zero (suc count) acc (b ∷ rest) = address_at zero count (acc * 256 + b) rest

abbrev pub decide : Option RouteTarget → RoutingDecision
decide none = RoutingDecision.discard
decide (some target) = route_target_to_decision target

module _ ⦃trie : PrefixTrie⦄ where
  -- The arms of the loop of `run` over the commands. `Shutdown` leaves the tables alone.
  unfoldable pub handle_command : FirstKey → ReactorCommand → RoutingTables → RoutingTables
  handle_command first_key ReactorCommand.shutdown r = r
  handle_command first_key (ReactorCommand.create_table id name) r = add_table r (new_table id name)
  handle_command first_key (ReactorCommand.delete_table id) r = (remove_table first_key r id).1
  handle_command first_key (ReactorCommand.add_route table_id prefix target) r =
      change_table r table_id (with_route prefix target)
  handle_command first_key (ReactorCommand.remove_route table_id prefix) r =
      change_table r table_id (without_route prefix)
  handle_command first_key (ReactorCommand.set_default_table id) r = set_default r id

  unfoldable pub route_ipv4 : RoutingTables → List ℕ → RoutingDecision
  route_ipv4 r ip_data =
      if ltb (length ip_data) 20 then RoutingDecision.discard else elim (get_default r) [
        | none ↦ RoutingDecision.discard
        | some table ↦ decide (lookup_v4 table (address_at 16 4 0 ip_data))
      ]

  unfoldable pub route_ipv6 : RoutingTables → List ℕ → RoutingDecision
  route_ipv6 r ip_data =
      if ltb (length ip_data) 40 then RoutingDecision.discard else elim (get_default r) [
        | none ↦ RoutingDecision.discard
        | some table ↦ decide (lookup_v6 table (address_at 24 16 0 ip_data))
      ]
