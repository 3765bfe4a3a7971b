-- ===== src/Store/Org.antt =====
-- mvirt-cplane/src/store/raft_store.rs: the methods of the store for organizations and projects.
use mvirt.Prelude.{String, Option, List, [], ◌∷◌}
use mvirt.Redb.{Redb}
use mvirt.Lru.{Lru}
use mvirt.Query
use mvirt.Command.{Command}
use mvirt.Resource.Org.{OrgData, ProjectData}
use mvirt.Store.Error.StoreError.{not_found, conflict}
use mvirt.Store.Request.{CreateOrgRequest, UpdateOrgRequest, CreateProjectRequest}
use mvirt.Store.Raft.{Raft}
use mvirt.Store.Call.{Fresh, Store, read, send, reply}
use mvirt.Store.Answer.{as_deleted, as_org, as_project, default_contact}

unfoldable pub create_org_command : Fresh → CreateOrgRequest → Command
create_org_command f req = Command.create_org (record {
  request_id = f.request_id;
  timestamp = f.now;
  slug = req.slug;
  name = req.name;
  contact = default_contact;
})

unfoldable pub update_org_command : Fresh → String → UpdateOrgRequest → Command
update_org_command f slug req = Command.update_org (record {
  request_id = f.request_id;
  slug = slug;
  timestamp = f.now;
  name = req.name;
  contact = req.contact;
})

unfoldable pub create_project_command : Fresh → CreateProjectRequest → Command
create_project_command f req = Command.create_project (record {
  request_id = f.request_id;
  timestamp = f.now;
  org_slug = req.org_slug;
  slug = req.slug;
  name = req.name;
  description = req.description;
})

unfoldable pub delete_org_command : Fresh → String → Command
delete_org_command f slug = Command.delete_org (record { request_id = f.request_id; slug = slug })

unfoldable pub delete_project_command : Fresh → String → Command
delete_project_command f slug =
    Command.delete_project (record { request_id = f.request_id; slug = slug })

module _ ⦃redb : Redb⦄ ⦃lru : Lru⦄ ⦃raft : Raft⦄ where
  unfoldable pub list_orgs : Store (List OrgData)
  unfolding read
  list_orgs = read (λ db. Query.Org.list_orgs db)

  unfoldable pub get_org : String → Store (Option OrgData)
  unfolding read
  get_org slug = read (λ db. Query.Org.get_org db slug)

  unfoldable pub create_org : Fresh → CreateOrgRequest → Store OrgData
  create_org f req = send (create_org_command f req) (reply as_org ((409, conflict) ∷ []))

  unfoldable pub update_org : Fresh → String → UpdateOrgRequest → Store OrgData
  update_org f slug req =
      send (update_org_command f slug req) (reply as_org ((404, not_found) ∷ []))

  unfoldable pub delete_org : Fresh → String → Store (Unit {0})
  delete_org f slug =
      send (delete_org_command f slug) (reply as_deleted ((404, not_found) ∷ (409, conflict) ∷ []))

  unfoldable pub list_projects : Store (List ProjectData)
  unfolding read
  list_projects = read (λ db. Query.Org.list_projects db)

  unfoldable pub list_projects_by_org : String → Store (List ProjectData)
  unfolding read
  list_projects_by_org org_slug = read (λ db. Query.Org.list_projects_by_org db org_slug)

  unfoldable pub get_project : String → Store (Option ProjectData)
  unfolding read
  get_project slug = read (λ db. Query.Org.get_project db slug)

  unfoldable pub create_project : Fresh → CreateProjectRequest → Store ProjectData
  create_project f req =
      send (create_project_command f req)
        (reply as_project ((404, not_found) ∷ (409, conflict) ∷ []))

  unfoldable pub delete_project : Fresh → String → Store (Unit {0})
  delete_project f slug =
      send (delete_project_command f slug) (reply as_deleted ((404, not_found) ∷ []))
