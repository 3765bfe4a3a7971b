-- ===== src/Store/Nic.antt =====
-- mvirt-cplane/src/store/raft_store.rs: the methods of the store for NICs.
use mvirt.Prelude.{String, Option, List, [], ◌∷◌}
use mvirt.Redb.{Redb}
use mvirt.Lru.{Lru}
use mvirt.Query
use mvirt.Command.{Command}
use mvirt.Resource.Network.{NicData}
use mvirt.Store.Error.StoreError.{not_found, conflict}
use mvirt.Store.Request.{CreateNicRequest, UpdateNicRequest, UpdateNicStatusRequest}
use mvirt.Store.Raft.{Raft}
use mvirt.Store.Call.{Fresh, Store, read, send, reply}
use mvirt.Store.Answer.{as_deleted, as_nic}

unfoldable pub create_nic_command : Fresh → CreateNicRequest → Command
create_nic_command f req = Command.create_nic (record {
  request_id = f.request_id;
  id = f.uuid;
  timestamp = f.now;
  project_slug = req.project_slug;
  network_id = req.network_id;
  name = req.name;
  mac_address = req.mac_address;
  ipv4_address = req.ipv4_address;
  ipv6_address = req.ipv6_address;
  routed_ipv4_prefixes = req.routed_ipv4_prefixes;
  routed_ipv6_prefixes = req.routed_ipv6_prefixes;
  security_group_id = req.security_group_id;
})

unfoldable pub update_nic_command : Fresh → String → UpdateNicRequest → Command
update_nic_command f id req = Command.update_nic (record {
  request_id = f.request_id;
  id = id;
  timestamp = f.now;
  routed_ipv4_prefixes = req.routed_ipv4_prefixes;
  routed_ipv6_prefixes = req.routed_ipv6_prefixes;
})

unfoldable pub update_nic_status_command : Fresh → String → UpdateNicStatusRequest → Command
update_nic_status_command f id req = Command.update_nic_status (record {
  request_id = f.request_id;
  id = id;
  timestamp = f.now;
  phase = req.phase;
  socket_path = req.socket_path;
  message = req.message;
})

unfoldable pub delete_nic_command : Fresh → String → Command
delete_nic_command f id = Command.delete_nic (record { request_id = f.request_id; id = id })

unfoldable pub attach_nic_command : Fresh → String → String → Command
attach_nic_command f id vm_id =
    Command.attach_nic
      (record { request_id = f.request_id; id = id; timestamp = f.now; vm_id = vm_id })

unfoldable pub detach_nic_command : Fresh → String → Command
detach_nic_command f id =
    Command.detach_nic (record { request_id = f.request_id; id = id; timestamp = f.now })

module _ ⦃redb : Redb⦄ ⦃lru : Lru⦄ ⦃raft : Raft⦄ where
  unfoldable pub list_nics : Option String → Store (List NicData)
  unfolding read
  list_nics network_id = read (λ db. Query.Network.list_nics db network_id)

  unfoldable pub list_nics_by_project : String → Store (List NicData)
  unfolding read
  list_nics_by_project project_slug =
      read (λ db. Query.Network.list_nics_by_project db project_slug)

  unfoldable pub get_nic : String → Store (Option NicData)
  unfolding read
  get_nic id = read (λ db. Query.Network.get_nic db id)

  unfoldable pub get_nic_by_name : String → Store (Option NicData)
  unfolding read
  get_nic_by_name name = read (λ db. Query.Network.get_nic_by_name db name)

  unfoldable pub create_nic : Fresh → CreateNicRequest → Store NicData
  create_nic f req =
      send (create_nic_command f req) (reply as_nic ((404, not_found) ∷ (409, conflict) ∷ []))

  unfoldable pub update_nic : Fresh → String → UpdateNicRequest → Store NicData
  update_nic f id req = send (update_nic_command f id req) (reply as_nic ((404, not_found) ∷ []))

  unfoldable pub delete_nic : Fresh → String → Store (Unit {0})
  delete_nic f id = send (delete_nic_command f id) (reply as_deleted ((404, not_found) ∷ []))

  unfoldable pub attach_nic : Fresh → String → String → Store NicData
  attach_nic f id vm_id =
      send (attach_nic_command f id vm_id) (reply as_nic ((404, not_found) ∷ (409, conflict) ∷ []))

  unfoldable pub detach_nic : Fresh → String → Store NicData
  detach_nic f id = send (detach_nic_command f id) (reply as_nic ((404, not_found) ∷ []))

  unfoldable pub update_nic_status : Fresh → String → UpdateNicStatusRequest → Store NicData
  update_nic_status f id req =
      send (update_nic_status_command f id req) (reply as_nic ((404, not_found) ∷ []))
