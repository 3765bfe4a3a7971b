-- ===== src/Apply/Template.antt =====
-- mvirt-cplane/src/state.rs: the handlers of the template commands.
use mvirt.Prelude.{◌<>◌, Bool, true, false, none, [], ◌∷◌, ◌==◌, ◌&&◌, any, is_some, if◌then◌else◌}
use mvirt.Redb.{Redb}
use mvirt.Redb.Txn.{txn_get, txn_list, txn_put}
use mvirt.Resource.Storage.{TemplateData, TemplatePhase}
use mvirt.Command.Template.{CreateTemplate, UpdateTemplateStatus}
use mvirt.Response.{Response, Event}
use mvirt.State.{Tables}
use mvirt.Apply.Outcome.{Handler, done, ◌>>=◌, ◌>>◌, return_if, some_or, return_existing}
use mvirt.Apply.Volume.{template_not_found}

abbrev pub is_ready : TemplatePhase → Bool
is_ready TemplatePhase.ready = true
is_ready _ = false

abbrev pub new_template : CreateTemplate → TemplateData
new_template c = record {
  id = c.id;
  spec = record {
    project_slug = c.project_slug;
    node_id = c.node_id;
    name = c.name;
    source_url = c.source_url;
  };
  status = record {
    phase = if is_some c.source_url then TemplatePhase.pending else TemplatePhase.ready;
    size_bytes = c.size_bytes;
    bytes_written = 0;
    total_bytes = c.total_bytes;
    clone_count = 0;
    error = none;
  };
  created_at = c.timestamp;
  updated_at = c.timestamp;
}

module _ ⦃redb : Redb⦄ (db : Tables) where
  unfoldable pub apply_create_template : CreateTemplate → Handler
  apply_create_template c = do
    return_if
        (any
          (λ t.
            t.spec.project_slug == c.project_slug
            && t.spec.name == c.name
            && is_ready t.status.phase)
          (txn_list db.templates))
        (Response.error 409 ("Template with name '" <> c.name <> "' already exists in project"))
    return_existing (txn_get db.templates c.id) Response.template
    let template = new_template c
    done (
      record db { templates = txn_put db.templates c.id template },
      Response.template template,
      Event.template_created template ∷ [],
    )

  unfoldable pub apply_update_template_status : UpdateTemplateStatus → Handler
  apply_update_template_status c = do
    old ← some_or (txn_get db.templates c.id) (template_not_found c.id)
    let new = record old {
      status = record old.status {
        phase = c.phase;
        bytes_written = c.bytes_written;
        size_bytes = c.size_bytes;
        error = c.error;
      };
      updated_at = c.timestamp;
    }
    done (
      record db { templates = txn_put db.templates c.id new },
      Response.template new,
      Event.template_updated c.id old new ∷ [],
    )
