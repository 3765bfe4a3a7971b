-- ===== src/Store/Volume.antt =====
-- mvirt-cplane/src/store/raft_store.rs: the methods of the store for volumes.
use mvirt.Prelude.{String, Option, List, [], ◌∷◌}
use mvirt.Redb.{Redb}
use mvirt.Lru.{Lru}
use mvirt.Query
use mvirt.Command.{Command}
use mvirt.Resource.Storage.{VolumeData}
use mvirt.Store.Error.StoreError.{not_found, conflict}
use mvirt.Store.Request.{
  CreateVolumeRequest, ResizeVolumeRequest, CreateSnapshotRequest, UpdateVolumeStatusRequest,
}
use mvirt.Store.Raft.{Raft}
use mvirt.Store.Call.{Fresh, Store, read, send, reply}
use mvirt.Store.Answer.{as_deleted, as_volume}

unfoldable pub create_volume_command : Fresh → CreateVolumeRequest → Command
create_volume_command f req = Command.create_volume (record {
  request_id = f.request_id;
  id = f.uuid;
  timestamp = f.now;
  project_slug = req.project_slug;
  node_id = req.node_id;
  name = req.name;
  size_bytes = req.size_bytes;
  template_id = req.template_id;
})

unfoldable pub resize_volume_command : Fresh → String → ResizeVolumeRequest → Command
resize_volume_command f id req =
    Command.resize_volume (record {
      request_id = f.request_id;
      id = id;
      timestamp = f.now;
      size_bytes = req.size_bytes;
    })

unfoldable pub create_snapshot_command : Fresh → String → CreateSnapshotRequest → Command
create_snapshot_command f volume_id req = Command.create_snapshot (record {
  request_id = f.request_id;
  id = f.uuid;
  timestamp = f.now;
  volume_id = volume_id;
  name = req.name;
})

unfoldable pub update_volume_status_command : Fresh → String → UpdateVolumeStatusRequest → Command
update_volume_status_command f id req = Command.update_volume_status (record {
  request_id = f.request_id;
  id = id;
  timestamp = f.now;
  phase = req.phase;
  path = req.path;
  used_bytes = req.used_bytes;
  error = req.error;
})

unfoldable pub delete_volume_command : Fresh → String → Command
delete_volume_command f id = Command.delete_volume (record { request_id = f.request_id; id = id })

module _ ⦃redb : Redb⦄ ⦃lru : Lru⦄ ⦃raft : Raft⦄ where
  unfoldable pub list_volumes : Option String → Option String → Store (List VolumeData)
  unfolding read
  list_volumes project_slug node_id =
      read (λ db. Query.Storage.list_volumes db project_slug node_id)

  unfoldable pub get_volume : String → Store (Option VolumeData)
  unfolding read
  get_volume id = read (λ db. Query.Storage.get_volume db id)

  unfoldable pub create_volume : Fresh → CreateVolumeRequest → Store VolumeData
  create_volume f req =
      send (create_volume_command f req) (reply as_volume ((404, not_found) ∷ (409, conflict) ∷ []))

  unfoldable pub delete_volume : Fresh → String → Store (Unit {0})
  delete_volume f id = send (delete_volume_command f id) (reply as_deleted ((404, not_found) ∷ []))

  unfoldable pub resize_volume : Fresh → String → ResizeVolumeRequest → Store VolumeData
  resize_volume f id req =
      send (resize_volume_command f id req)
        (reply as_volume ((404, not_found) ∷ (400, conflict) ∷ []))

  unfoldable pub create_snapshot : Fresh → String → CreateSnapshotRequest → Store VolumeData
  create_snapshot f volume_id req =
      send (create_snapshot_command f volume_id req)
        (reply as_volume ((404, not_found) ∷ (409, conflict) ∷ []))

  unfoldable pub update_volume_status :
      Fresh → String → UpdateVolumeStatusRequest → Store VolumeData
  update_volume_status f id req =
      send (update_volume_status_command f id req) (reply as_volume ((404, not_found) ∷ []))
