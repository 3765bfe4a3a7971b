-- ===== src/Query/Storage.antt =====
-- mvirt-cplane/src/state.rs: the queries of `ApiState` over volumes and templates.
use mvirt.Prelude.{ℕ, String, Bool, true, Option, none, some, List, ◌==◌, ◌&&◌, find, keep}
use mvirt.Redb.{Redb}
use mvirt.Redb.Txn.{read_get, read_list, read_count, read_keys}
use mvirt.Resource.Storage.{VolumeData, TemplateData}
use mvirt.State.{Tables}

-- `Option::is_none_or` with a test for equality.
abbrev pub is_none_or : Option String → String → Bool
is_none_or none s = true
is_none_or (some t) s = s == t

module _ ⦃redb : Redb⦄ (db : Tables) where
  unfoldable pub get_volume : String → Option VolumeData
  get_volume id = read_get db.volumes id

  unfoldable pub get_volume_by_name : String → String → Option VolumeData
  get_volume_by_name project_slug name =
      find (λ x. x.spec.project_slug == project_slug && x.spec.name == name) (read_list db.volumes)

  unfoldable pub list_volumes : Option String → Option String → List VolumeData
  list_volumes project_slug node_id =
      keep (λ x. is_none_or project_slug x.spec.project_slug && is_none_or node_id x.spec.node_id)
        (read_list db.volumes)

  unfoldable pub volume_count : ℕ
  volume_count = read_count db.volumes

  unfoldable pub volume_ids : List String
  volume_ids = read_keys db.volumes

  unfoldable pub get_template : String → Option TemplateData
  get_template id = read_get db.templates id

  unfoldable pub get_template_by_name : String → Option TemplateData
  get_template_by_name name = find (λ x. x.spec.name == name) (read_list db.templates)

  unfoldable pub list_templates : Option String → List TemplateData
  list_templates none = read_list db.templates
  list_templates (some id) = keep (λ x. x.spec.node_id == id) (read_list db.templates)

  unfoldable pub list_templates_by_project : String → List TemplateData
  list_templates_by_project project_slug =
      keep (λ x. x.spec.project_slug == project_slug) (read_list db.templates)

  unfoldable pub template_count : ℕ
  template_count = read_count db.templates

  unfoldable pub template_ids : List String
  template_ids = read_keys db.templates
