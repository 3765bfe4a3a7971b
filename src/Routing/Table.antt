-- ===== src/Routing/Table.antt =====
-- mvirt-net/src/routing.rs: `LpmTable` and `RoutingTables`. A hash map is the list of its entries.
use mvirt.Prelude.{
  ℕ, String, Option, none, some, List, [], ◌∷◌, map, leb, is_some, opt_eq, if◌then◌else◌,
}
use mvirt.Redb.{lookup, without}
use mvirt.Routing.Target.{IpNet, Ipv4Net, Ipv6Net, RouteTarget, PrefixTrie}

-- `Ipv4Net::new` and `Ipv6Net::new`, as options.
unfoldable pub ipv4_net : ℕ → ℕ → Option Ipv4Net
ipv4_net addr len = if leb len 32 then some (record { addr = addr; prefix_len = len }) else none

unfoldable pub ipv6_net : ℕ → ℕ → Option Ipv6Net
ipv6_net addr len = if leb len 128 then some (record { addr = addr; prefix_len = len }) else none

abbrev pub target_of : Option (IpNet × RouteTarget) → Option RouteTarget
target_of none = none
target_of (some (prefix, target)) = some target

-- `keys().next()` of a hash map: some key, or none if there is none, in an order that is the map's
-- own. Every copy of the tables has an order, a function of its keys as they were added.
abbrev pub FirstKey : Type 0
FirstKey = List String → Option String

module _ ⦃trie : PrefixTrie⦄ where
  pub record LpmTable : Type 0 where
    pub id : String
    pub name : String
    pub ipv4 : trie.Map 32 RouteTarget
    pub ipv6 : trie.Map 128 RouteTarget

  unfoldable pub new_table : String → String → LpmTable
  new_table id name = record {
    id = id;
    name = name;
    ipv4 = trie.new 32 RouteTarget;
    ipv6 = trie.new 128 RouteTarget;
  }

  unfoldable pub lookup_v4 : LpmTable → ℕ → Option RouteTarget
  lookup_v4 t addr = elim (ipv4_net addr 32) [
    | none ↦ none
    | some prefix ↦ target_of (trie.get_lpm 32 RouteTarget t.ipv4 prefix)
  ]

  unfoldable pub lookup_v6 : LpmTable → ℕ → Option RouteTarget
  lookup_v6 t addr = elim (ipv6_net addr 128) [
    | none ↦ none
    | some prefix ↦ target_of (trie.get_lpm 128 RouteTarget t.ipv6 prefix)
  ]

  unfoldable pub insert_v4 : LpmTable → Ipv4Net → RouteTarget → LpmTable
  insert_v4 t prefix target = record t { ipv4 = trie.insert 32 RouteTarget t.ipv4 prefix target }

  unfoldable pub insert_v6 : LpmTable → Ipv6Net → RouteTarget → LpmTable
  insert_v6 t prefix target = record t { ipv6 = trie.insert 128 RouteTarget t.ipv6 prefix target }

  -- A removal gives the target that was there, and the table.
  unfoldable pub remove_v4 : LpmTable → Ipv4Net → Option RouteTarget × LpmTable
  remove_v4 t prefix =
      let (old, rest) = trie.remove 32 RouteTarget t.ipv4 prefix in (old, record t { ipv4 = rest })

  unfoldable pub remove_v6 : LpmTable → Ipv6Net → Option RouteTarget × LpmTable
  remove_v6 t prefix =
      let (old, rest) = trie.remove 128 RouteTarget t.ipv6 prefix in (old, record t { ipv6 = rest })

  pub record RoutingTables : Type 0 where
    pub tables : List (String × LpmTable)
    pub default_table : Option String

  unfoldable pub new_tables : RoutingTables
  new_tables = record { tables = []; default_table = none }

  abbrev pub put : String → LpmTable → List (String × LpmTable) → List (String × LpmTable)
  put id t tables = (id, t) ∷ without id tables

  unfoldable pub add_table : RoutingTables → LpmTable → RoutingTables
  add_table r table = record {
    tables = put table.id table r.tables;
    default_table = elim r.default_table [ none ↦ some table.id | some d ↦ some d ];
  }

  unfoldable pub get_table : RoutingTables → String → Option LpmTable
  get_table r id = lookup id r.tables

  -- `if let Some(table) = get_table_mut(id) { change(table) }`.
  unfoldable pub change_table : RoutingTables → String → (LpmTable → LpmTable) → RoutingTables
  change_table r id change = elim (lookup id r.tables) [
    | none ↦ r
    | some t ↦ record r { tables = put id (change t) r.tables }
  ]

  unfoldable pub get_default : RoutingTables → Option LpmTable
  get_default r = elim r.default_table [ none ↦ none | some id ↦ lookup id r.tables ]

  unfoldable pub set_default : RoutingTables → String → RoutingTables
  set_default r id =
      if is_some (lookup id r.tables) then record r { default_table = some id } else r

  unfoldable pub remove_table : FirstKey → RoutingTables → String → Option LpmTable × RoutingTables
  remove_table first_key r id =
      let rest = without id r.tables in
      (
        lookup id r.tables,
        record {
          tables = rest;
          default_table =
              if opt_eq r.default_table (some id)
              then first_key (map (λ e. e.0) rest)
              else r.default_table;
        },
      )
