-- ===== src/Tests/Routing.antt =====
-- The routing tables of a manager and a reactor.
use mvirt.Prelude.{ℕ, ◌+◌, ◌*◌, ◌≡◌, refl, true, none, some, List, [], ◌∷◌, Memᴰ}
use mvirt.Redb.{lookup, without}
use mvirt.Routing.Target.{IpPrefix, RouteTarget, RoutingDecision, PrefixTrie}
use mvirt.Routing.Table.{
  LpmTable, FirstKey, change_table, insert_v4, get_default, lookup_v4, ipv4_net,
}
use mvirt.Routing.Update.{ReactorCommand}
use mvirt.Routing.Manager.{Receiver, register_command_channel, create_table, add_route}
use mvirt.Routing.Reactor.{handle_command, route_ipv4, route_target_to_decision, address_at}
use mvirt.Routing.Step.{Step}
use mvirt.Routing.InStep.{drain}
use mvirt.Routing.ByList.{by_list, longest, covers, drop_net, same_net}

instance abbrev test_trie : PrefixTrie
test_trie = by_list

abbrev first : FirstKey
first [] = none
first (k ∷ rest) = some k

-- A reactor registers, takes the new table, and has yet to take two routes.
abbrev steps : List Step
steps =
    Step.register_command_channel first
    ∷ Step.create_table "t" "main"
    ∷ Step.take_command 0
    ∷ Step.add_route "t" (IpPrefix.v4 (record { addr = 10 * 16777216; prefix_len = 8 }))
        (RouteTarget.tun 3)
    ∷ Step.add_route "t" (IpPrefix.v4 (record { addr = 10 * 16777216 + 256; prefix_len = 24 }))
        (RouteTarget.reactor "vm")
    ∷ []

abbrev main_table : LpmTable
main_table = record { id = "t"; name = "main"; ipv4 = []; ipv6 = [] }

abbrev behind : Receiver ReactorCommand
behind = record {
  open_ = true;
  pending =
      ReactorCommand.add_route "t" (IpPrefix.v4 (record { addr = 10 * 16777216; prefix_len = 8 }))
        (RouteTarget.tun 3)
      ∷ ReactorCommand.add_route "t"
          (IpPrefix.v4 (record { addr = 10 * 16777216 + 256; prefix_len = 24 }))
          (RouteTarget.reactor "vm")
      ∷ [];
  local = record { tables = ("t", main_table) ∷ []; default_table = some "t" };
  order = first;
}

-- A packet with a destination in both networks.
abbrev packet : List ℕ
packet = 69 ∷ 0 ∷ 0 ∷ 20 ∷ 0 ∷ 0 ∷ 0 ∷ 0 ∷ 64 ∷ 6 ∷ 0 ∷ 0 ∷ 10 ∷ 0 ∷ 0 ∷ 9 ∷ 10 ∷ 0 ∷ 1 ∷ 5 ∷ []

-- It goes by the longer prefix once the reactor has caught up, and nowhere before.
longest_wins :
    route_ipv4 (drain handle_command first behind.pending behind.local) packet
    ≡ RoutingDecision.to_vhost "vm"
unfolding route_ipv4 drain handle_command change_table insert_v4 lookup without get_default
    lookup_v4 ipv4_net longest covers same_net drop_net address_at route_target_to_decision
longest_wins = refl

not_yet : route_ipv4 behind.local packet ≡ RoutingDecision.discard
unfolding route_ipv4 get_default lookup lookup_v4 ipv4_net longest address_at
not_yet = refl
