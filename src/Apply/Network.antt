-- ===== src/Apply/Network.antt =====
-- mvirt-cplane/src/state.rs: the handlers of the network commands.
use mvirt.Prelude.{
  String, ◌<>◌, List, [], ◌∷◌, ◌++◌, ◌==◌, ◌&&◌, any, keep, length, is_empty, decimal, as_u32, not,
  map,
}
use mvirt.Redb.{Redb}
use mvirt.Redb.Txn.{delete_rows, txn_get, txn_has, txn_list, txn_put, txn_delete}
use mvirt.Resource.Network.{NetworkData, NicData}
use mvirt.Command.Network.{CreateNetwork, UpdateNetwork, DeleteNetwork}
use mvirt.Response.{Response, Event}
use mvirt.State.{Tables}
use mvirt.Apply.Outcome.{Handler, done, ◌>>=◌, ◌>>◌, return_if, some_or, return_existing}

abbrev pub network_not_found : String → Response
network_not_found id = Response.error 404 ("Network '" <> id <> "' not found")

abbrev pub new_network : CreateNetwork → NetworkData
new_network c = record {
  id = c.id;
  project_slug = c.project_slug;
  name = c.name;
  ipv4_enabled = c.ipv4_enabled;
  ipv4_prefix = c.ipv4_prefix;
  ipv6_enabled = c.ipv6_enabled;
  ipv6_prefix = c.ipv6_prefix;
  dns_servers = c.dns_servers;
  ntp_servers = c.ntp_servers;
  is_public = c.is_public;
  nic_count = 0;
  created_at = c.timestamp;
  updated_at = c.timestamp;
}

abbrev pub nic_deleted_events : List NicData → List Event
nic_deleted_events = map (λ nic. Event.nic_deleted nic.id nic.spec.network_id)

module _ ⦃redb : Redb⦄ (db : Tables) where
  unfoldable pub apply_create_network : CreateNetwork → Handler
  apply_create_network c = do
    return_if
        (any (λ n. n.project_slug == c.project_slug && n.name == c.name) (txn_list db.networks))
        (Response.error 409 ("Network with name '" <> c.name <> "' already exists in project"))
    return_existing (txn_get db.networks c.id) Response.network
    let network = new_network c
    done (
      record db { networks = txn_put db.networks c.id network },
      Response.network network,
      Event.network_created network ∷ [],
    )

  unfoldable pub apply_update_network : UpdateNetwork → Handler
  apply_update_network c = do
    old_network ← some_or (txn_get db.networks c.id) (network_not_found c.id)
    let new_network = record old_network {
      dns_servers = c.dns_servers;
      ntp_servers = c.ntp_servers;
      updated_at = c.timestamp;
    }
    done (
      record db { networks = txn_put db.networks c.id new_network },
      Response.network new_network,
      Event.network_updated c.id old_network new_network ∷ [],
    )

  abbrev pub nics_in_network : String → List NicData
  nics_in_network id = keep (λ n. n.spec.network_id == id) (txn_list db.nics)

  unfoldable pub apply_delete_network : DeleteNetwork → Handler
  apply_delete_network c = do
    let nics = nics_in_network c.id
    return_if (not (is_empty nics) && not c.force) (
        Response.error 409
          ("Network has " <> decimal (length nics) <> " NICs, use force=true to delete"))
    return_if (not (txn_has db.networks c.id)) (network_not_found c.id)
    done (
      record db {
        nics = delete_rows (λ n. n.id) db.nics nics;
        networks = txn_delete db.networks c.id;
      },
      Response.deleted_with_count c.id (as_u32 (length nics)),
      nic_deleted_events nics ++ Event.network_deleted c.id ∷ [],
    )
