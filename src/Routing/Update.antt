-- ===== src/Routing/Update.antt =====
-- mvirt-net/src/routing.rs: the updates, and what each does to a reactor's copy of the tables.
use mvirt.Prelude.{String}
use mvirt.Routing.Target.{IpPrefix, RouteTarget, PrefixTrie}
use mvirt.Routing.Table.{
  LpmTable, RoutingTables, FirstKey, new_table, add_table, remove_table, change_table, set_default,
  insert_v4, insert_v6, remove_v4, remove_v6,
}

pub data RouteUpdate : Type 0 where
  create_table : String → String → RouteUpdate
  delete_table : String → RouteUpdate
  add_route : String → IpPrefix → RouteTarget → RouteUpdate
  remove_route : String → IpPrefix → RouteUpdate
  set_default_table : String → RouteUpdate

pub data ReactorCommand : Type 0 where
  shutdown : ReactorCommand
  create_table : String → String → ReactorCommand
  delete_table : String → ReactorCommand
  add_route : String → IpPrefix → RouteTarget → ReactorCommand
  remove_route : String → IpPrefix → ReactorCommand
  set_default_table : String → ReactorCommand

module _ ⦃trie : PrefixTrie⦄ where
  abbrev pub with_route : IpPrefix → RouteTarget → LpmTable → LpmTable
  with_route (IpPrefix.v4 p) target t = insert_v4 t p target
  with_route (IpPrefix.v6 p) target t = insert_v6 t p target

  abbrev pub without_route : IpPrefix → LpmTable → LpmTable
  without_route (IpPrefix.v4 p) t = (remove_v4 t p).1
  without_route (IpPrefix.v6 p) t = (remove_v6 t p).1

  unfoldable pub apply_update : FirstKey → RouteUpdate → RoutingTables → RoutingTables
  apply_update first_key (RouteUpdate.create_table id name) r = add_table r (new_table id name)
  apply_update first_key (RouteUpdate.delete_table id) r = (remove_table first_key r id).1
  apply_update first_key (RouteUpdate.add_route table_id prefix target) r =
      change_table r table_id (with_route prefix target)
  apply_update first_key (RouteUpdate.remove_route table_id prefix) r =
      change_table r table_id (without_route prefix)
  apply_update first_key (RouteUpdate.set_default_table id) r = set_default r id
