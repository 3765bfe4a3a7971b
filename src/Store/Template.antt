-- ===== src/Store/Template.antt =====
-- mvirt-cplane/src/store/raft_store.rs: the methods of the store for templates.
use mvirt.Prelude.{String, Option, List, [], ◌∷◌}
use mvirt.Redb.{Redb}
use mvirt.Lru.{Lru}
use mvirt.Query
use mvirt.Command.{Command}
use mvirt.Resource.Storage.{TemplateData}
use mvirt.Store.Error.StoreError.{not_found, conflict}
use mvirt.Store.Request.{CreateTemplateRequest, UpdateTemplateStatusRequest}
use mvirt.Store.Raft.{Raft}
use mvirt.Store.Call.{Fresh, Store, read, send, reply}
use mvirt.Store.Answer.{as_template}

unfoldable pub create_template_command : Fresh → CreateTemplateRequest → Command
create_template_command f req = Command.create_template (record {
  request_id = f.request_id;
  id = f.uuid;
  timestamp = f.now;
  project_slug = req.project_slug;
  node_id = req.node_id;
  name = req.name;
  size_bytes = req.size_bytes;
  source_url = req.source_url;
  total_bytes = req.total_bytes;
})

unfoldable pub update_template_status_command :
    Fresh → String → UpdateTemplateStatusRequest → Command
update_template_status_command f id req = Command.update_template_status (record {
  request_id = f.request_id;
  id = id;
  timestamp = f.now;
  phase = req.phase;
  bytes_written = req.bytes_written;
  size_bytes = req.size_bytes;
  error = req.error;
})

module _ ⦃redb : Redb⦄ ⦃lru : Lru⦄ ⦃raft : Raft⦄ where
  unfoldable pub list_templates : Option String → Store (List TemplateData)
  unfolding read
  list_templates node_id = read (λ db. Query.Storage.list_templates db node_id)

  unfoldable pub list_templates_by_project : String → Store (List TemplateData)
  unfolding read
  list_templates_by_project project_slug =
      read (λ db. Query.Storage.list_templates_by_project db project_slug)

  unfoldable pub get_template : String → Store (Option TemplateData)
  unfolding read
  get_template id = read (λ db. Query.Storage.get_template db id)

  unfoldable pub create_template : Fresh → CreateTemplateRequest → Store TemplateData
  create_template f req =
      send (create_template_command f req) (reply as_template ((409, conflict) ∷ []))

  unfoldable pub update_template_status :
      Fresh → String → UpdateTemplateStatusRequest → Store TemplateData
  update_template_status f id req =
      send (update_template_status_command f id req) (reply as_template ((404, not_found) ∷ []))
