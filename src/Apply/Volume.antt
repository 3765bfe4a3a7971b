-- ===== src/Apply/Volume.antt =====
-- mvirt-cplane/src/state.rs: the handlers of the volume and snapshot commands.
use mvirt.Prelude.{
  String, ◌<>◌, Option, none, some, [], ◌∷◌, ◌++◌, ◌==◌, ◌&&◌, any, ltb, unwrap_or, not, incr_u32,
  decr_u32,
}
use mvirt.Redb.{Redb}
use mvirt.Redb.Txn.{Table, txn_get, txn_has, txn_list, txn_put, txn_delete}
use mvirt.Resource.Storage.{VolumeData, VolumePhase, TemplateData, SnapshotData}
use mvirt.Command.Volume.{
  CreateVolume, DeleteVolume, UpdateVolumeStatus, ResizeVolume, CreateSnapshot,
}
use mvirt.Response.{Response, Event}
use mvirt.State.{Tables}
use mvirt.Apply.Outcome.{Outcome, Handler, done, ◌>>=◌, ◌>>◌, return_if, some_or, return_existing}
use mvirt.Apply.Org.{project_not_found}

abbrev pub volume_not_found : String → Response
volume_not_found id = Response.error 404 ("Volume '" <> id <> "' not found")

abbrev pub template_not_found : String → Response
template_not_found id = Response.error 404 ("Template '" <> id <> "' not found")

abbrev pub new_volume : CreateVolume → VolumeData
new_volume c = record {
  id = c.id;
  spec = record {
    project_slug = c.project_slug;
    node_id = c.node_id;
    name = c.name;
    size_bytes = c.size_bytes;
    template_id = c.template_id;
  };
  status = record {
    phase = VolumePhase.pending;
    path = "";
    used_bytes = 0;
    compression_ratio = 1;
    snapshots = [];
    error = none;
  };
  created_at = c.timestamp;
  updated_at = c.timestamp;
}

module _ ⦃redb : Redb⦄ where
  -- The template that a new volume is cloned from, which must be on the volume's node.
  unfoldable pub find_template :
      Table TemplateData → Option String → String → Outcome (Option TemplateData)
  find_template t none node_id = done none
  find_template t (some tid) node_id = do
    template ← some_or (txn_get t tid) (template_not_found tid)
    return_if (not (template.spec.node_id == node_id)) (
        Response.error 409 (
          "Template " <> tid <> " is on node " <> template.spec.node_id
          <> " but volume targets node " <> node_id))
    done (some template)

  unfoldable pub clones_up : Table TemplateData → Option TemplateData → Table TemplateData
  clones_up t none = t
  clones_up t (some tpl) =
      txn_put t tpl.id (record tpl {
        status = record tpl.status { clone_count = incr_u32 tpl.status.clone_count };
      })

  unfoldable pub clones_down : Table TemplateData → Option String → Table TemplateData
  clones_down t none = t
  clones_down t (some tid) = elim (txn_get t tid) [
    | none ↦ t
    | some tpl ↦ txn_put t tid (record tpl {
      status = record tpl.status { clone_count = decr_u32 tpl.status.clone_count };
    })
  ]

module _ ⦃redb : Redb⦄ (db : Tables) where
  unfoldable pub apply_create_volume : CreateVolume → Handler
  apply_create_volume c = do
    return_if (not (txn_has db.projects c.project_slug)) (project_not_found c.project_slug)
    return_existing (txn_get db.volumes c.id) Response.volume
    return_if
        (any (λ v. v.spec.project_slug == c.project_slug && v.spec.name == c.name)
          (txn_list db.volumes))
        (Response.error 409 ("Volume with name '" <> c.name <> "' already exists in project"))
    template_to_update ← find_template db.templates c.template_id c.node_id
    let volume = new_volume c
    done (
      record db {
        templates = clones_up db.templates template_to_update;
        volumes = txn_put db.volumes c.id volume;
      },
      Response.volume volume,
      Event.volume_created volume ∷ [],
    )

  unfoldable pub apply_delete_volume : DeleteVolume → Handler
  apply_delete_volume c = do
    vol ← some_or (txn_get db.volumes c.id) (volume_not_found c.id)
    done (
      record db {
        volumes = txn_delete db.volumes c.id;
        templates = clones_down db.templates vol.spec.template_id;
      },
      Response.deleted c.id,
      Event.volume_deleted c.id vol.spec.node_id ∷ [],
    )

  unfoldable pub apply_update_volume_status : UpdateVolumeStatus → Handler
  apply_update_volume_status c = do
    old ← some_or (txn_get db.volumes c.id) (volume_not_found c.id)
    let vol = record old {
      status = record old.status {
        phase = c.phase;
        path = unwrap_or c.path old.status.path;
        used_bytes = c.used_bytes;
        error = c.error;
      };
      updated_at = c.timestamp;
    }
    done (
      record db { volumes = txn_put db.volumes c.id vol },
      Response.volume vol,
      Event.volume_status_updated c.id old vol ∷ [],
    )

  unfoldable pub apply_resize_volume : ResizeVolume → Handler
  apply_resize_volume c = do
    old ← some_or (txn_get db.volumes c.id) (volume_not_found c.id)
    return_if (ltb c.size_bytes old.spec.size_bytes) (Response.error 400 "Cannot shrink volume")
    let vol = record old {
      spec = record old.spec { size_bytes = c.size_bytes };
      updated_at = c.timestamp;
    }
    done (record db { volumes = txn_put db.volumes c.id vol }, Response.volume vol, [])

  unfoldable pub apply_create_snapshot : CreateSnapshot → Handler
  apply_create_snapshot c = do
    old ← some_or (txn_get db.volumes c.volume_id) (volume_not_found c.volume_id)
    return_if (any (λ s. s.name == c.name) old.status.snapshots)
        (Response.error 409 ("Snapshot with name '" <> c.name <> "' already exists on volume"))
    let snapshot : SnapshotData = record {
      id = c.id;
      name = c.name;
      created_at = c.timestamp;
      used_bytes = 0;
    }
    let vol = record old {
      status = record old.status { snapshots = old.status.snapshots ++ snapshot ∷ [] };
      updated_at = c.timestamp;
    }
    done (record db { volumes = txn_put db.volumes c.volume_id vol }, Response.volume vol, [])
