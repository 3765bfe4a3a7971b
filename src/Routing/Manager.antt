-- ===== src/Routing/Manager.antt =====
-- mvirt-net/src/routing.rs: `RoutingManager`. A sender is modelled with the far end of its channel:
-- whether the receiver is there, and the messages that it has yet to take. The receiver is a reactor
-- with its copy of the tables, and the order of the keys in that copy.
use mvirt.Prelude.{ℕ, String, Bool, true, List, [], ◌∷◌, ◌++◌, length, is_some, if◌then◌else◌}
use mvirt.Routing.Target.{IpPrefix, RouteTarget, PrefixTrie}
use mvirt.Routing.Table.{RoutingTables, FirstKey, new_tables, get_table}
use mvirt.Routing.Update.{RouteUpdate, ReactorCommand, apply_update}

module _ ⦃trie : PrefixTrie⦄ where
  pub record Receiver (M : Type 0) : Type 0 where
    pub open_ : Bool
    pub pending : List M
    pub local : RoutingTables
    pub order : FirstKey

  -- `retain(|sender| sender.send(message).is_ok())`.
  unfoldable pub send_all : {M : Type 0} → M → List (Receiver M) → List (Receiver M)
  send_all message [] = []
  send_all message (r ∷ rest) =
      let others = send_all message rest in
      if r.open_ then record r { pending = r.pending ++ message ∷ [] } ∷ others else others

  pub record RoutingManager : Type 0 where
    pub tables : RoutingTables
    pub order : FirstKey
    pub update_senders : List (Receiver RouteUpdate)
    pub command_senders : List (Receiver ReactorCommand)

  unfoldable pub new_manager : FirstKey → RoutingManager
  unfolding new_tables
  new_manager order = record {
    tables = new_tables;
    order = order;
    update_senders = [];
    command_senders = [];
  }

  -- A reactor that registers begins with a clone of the tables.
  abbrev pub newcomer : {M : Type 0} → FirstKey → RoutingTables → Receiver M
  newcomer order tables = record { open_ = true; pending = []; local = tables; order = order }

  unfoldable pub register_reactor : FirstKey → RoutingManager → RoutingManager
  register_reactor order m = record m {
    update_senders = m.update_senders ++ newcomer order m.tables ∷ [];
  }

  unfoldable pub register_command_channel : FirstKey → RoutingManager → RoutingManager
  register_command_channel order m = record m {
    command_senders = m.command_senders ++ newcomer order m.tables ∷ [];
  }

  -- Nothing is done until the next broadcast.
  unfoldable pub cleanup_closed_channels : RoutingManager → RoutingManager
  cleanup_closed_channels m = m

unfoldable pub route_update_to_command : RouteUpdate → ReactorCommand
route_update_to_command (RouteUpdate.create_table id name) = ReactorCommand.create_table id name
route_update_to_command (RouteUpdate.delete_table id) = ReactorCommand.delete_table id
route_update_to_command (RouteUpdate.add_route table_id prefix target) =
    ReactorCommand.add_route table_id prefix target
route_update_to_command (RouteUpdate.remove_route table_id prefix) =
    ReactorCommand.remove_route table_id prefix
route_update_to_command (RouteUpdate.set_default_table id) = ReactorCommand.set_default_table id

module _ ⦃trie : PrefixTrie⦄ where
  unfoldable pub broadcast_as_command : RouteUpdate → RoutingManager → RoutingManager
  broadcast_as_command update m = record m {
    command_senders = send_all (route_update_to_command update) m.command_senders;
  }

  unfoldable pub broadcast : RouteUpdate → RoutingManager → RoutingManager
  unfolding broadcast_as_command
  broadcast update m =
      broadcast_as_command update (record m { update_senders = send_all update m.update_senders })

  -- `update.apply(&mut self.tables); self.broadcast(&update)`.
  unfoldable pub publish : RouteUpdate → RoutingManager → RoutingManager
  unfolding broadcast
  publish update m = broadcast update (record m { tables = apply_update m.order update m.tables })

  unfoldable pub create_table : String → String → RoutingManager → RoutingManager
  create_table id name m = publish (RouteUpdate.create_table id name) m

  unfoldable pub delete_table : String → RoutingManager → RoutingManager
  delete_table id m = publish (RouteUpdate.delete_table id) m

  unfoldable pub add_route : String → IpPrefix → RouteTarget → RoutingManager → RoutingManager
  add_route table_id prefix target m =
      if is_some (get_table m.tables table_id)
      then publish (RouteUpdate.add_route table_id prefix target) m
      else m

  unfoldable pub remove_route : String → IpPrefix → RoutingManager → RoutingManager
  remove_route table_id prefix m = publish (RouteUpdate.remove_route table_id prefix) m

  unfoldable pub set_default_table : String → RoutingManager → RoutingManager
  set_default_table id m = publish (RouteUpdate.set_default_table id) m

  unfoldable pub reactor_count : RoutingManager → ℕ
  reactor_count m = length m.update_senders

  unfoldable pub command_channel_count : RoutingManager → ℕ
  command_channel_count m = length m.command_senders
