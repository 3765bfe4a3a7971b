-- ===== src/Store/Network.antt =====
-- mvirt-cplane/src/store/raft_store.rs: the methods of the store for networks.
use mvirt.Store.Error.{StoreError}
use mvirt.Prelude.{◌<>◌, String, Bool, Option, List, [], ◌∷◌}
use mvirt.Redb.{Redb}
use mvirt.Lru.{Lru}
use mvirt.Query
use mvirt.Command.{Command}
use mvirt.Resource.Network.{NetworkData}
use mvirt.Store.Error.StoreError.{not_found, conflict}
use mvirt.Store.Request.{
  UpdateNetworkStatusRequest, CreateNetworkRequest, UpdateNetworkRequest, DeleteNetworkResult,
}
use mvirt.Store.Raft.{Raft}
use mvirt.Store.Call.{Fresh, Store, read, ◌>>=◌, lift, ok_or, send, reply}
use mvirt.Store.Answer.{as_delete_network_result, as_network}

unfoldable pub create_network_command : Fresh → CreateNetworkRequest → Command
create_network_command f req = Command.create_network (record {
  request_id = f.request_id;
  id = f.uuid;
  timestamp = f.now;
  name = req.name;
  ipv4_enabled = req.ipv4_enabled;
  project_slug = req.project_slug;
  ipv4_prefix = req.ipv4_prefix;
  ipv6_enabled = req.ipv6_enabled;
  ipv6_prefix = req.ipv6_prefix;
  dns_servers = req.dns_servers;
  ntp_servers = req.ntp_servers;
  is_public = req.is_public;
})

unfoldable pub update_network_command : Fresh → String → UpdateNetworkRequest → Command
update_network_command f id req = Command.update_network (record {
  request_id = f.request_id;
  id = id;
  timestamp = f.now;
  dns_servers = req.dns_servers;
  ntp_servers = req.ntp_servers;
})

unfoldable pub delete_network_command : Fresh → String → Bool → Command
delete_network_command f id force =
    Command.delete_network (record { request_id = f.request_id; id = id; force = force })

module _ ⦃redb : Redb⦄ ⦃lru : Lru⦄ ⦃raft : Raft⦄ where
  unfoldable pub list_networks : Store (List NetworkData)
  unfolding read
  list_networks = read (λ db. Query.Network.list_networks db)

  unfoldable pub list_networks_by_project : String → Store (List NetworkData)
  unfolding read
  list_networks_by_project project_slug =
      read (λ db. Query.Network.list_networks_by_project db project_slug)

  unfoldable pub get_network : String → Store (Option NetworkData)
  unfolding read
  get_network id = read (λ db. Query.Network.get_network db id)

  unfoldable pub get_network_by_name : String → Store (Option NetworkData)
  unfolding read
  get_network_by_name name = read (λ db. Query.Network.get_network_by_name db name)

  unfoldable pub create_network : Fresh → CreateNetworkRequest → Store NetworkData
  create_network f req =
      send (create_network_command f req) (reply as_network ((409, conflict) ∷ []))

  unfoldable pub update_network : Fresh → String → UpdateNetworkRequest → Store NetworkData
  update_network f id req =
      send (update_network_command f id req) (reply as_network ((404, not_found) ∷ []))

  unfoldable pub delete_network : Fresh → String → Bool → Store DeleteNetworkResult
  delete_network f id force =
      send (delete_network_command f id force)
        (reply as_delete_network_result ((404, not_found) ∷ (409, conflict) ∷ []))

  -- A read of the row: networks have no status yet.
  unfoldable pub update_network_status : String → UpdateNetworkStatusRequest → Store NetworkData
  unfolding read
  update_network_status id req = do
    found ← read (λ db. Query.Network.get_network db id)
    lift (ok_or found (StoreError.not_found ("Network '" <> id <> "' not found")))
