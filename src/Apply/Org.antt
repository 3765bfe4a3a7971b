-- ===== src/Apply/Org.antt =====
-- mvirt-cplane/src/state.rs: the handlers of the organization and project commands.
use mvirt.Prelude.{String, ◌<>◌, [], ◌==◌, count_if, decimal, ltb, unwrap_or, not}
use mvirt.Redb.{Redb}
use mvirt.Redb.Txn.{txn_get, txn_has, txn_list, txn_put, txn_delete}
use mvirt.Resource.Org.{OrgData, ProjectData}
use mvirt.Command.Org.{CreateOrg, UpdateOrg, DeleteOrg, CreateProject, DeleteProject}
use mvirt.Response.{Response}
use mvirt.State.{Tables}
use mvirt.Apply.Outcome.{Handler, done, ◌>>=◌, ◌>>◌, return_if, some_or}

abbrev pub org_not_found : String → Response
org_not_found slug = Response.error 404 ("Org '" <> slug <> "' not found")

abbrev pub project_not_found : String → Response
project_not_found slug = Response.error 404 ("Project '" <> slug <> "' not found")

module _ ⦃redb : Redb⦄ (db : Tables) where
  unfoldable pub apply_create_org : CreateOrg → Handler
  apply_create_org c = do
    return_if (txn_has db.orgs c.slug)
        (Response.error 409 ("Org with slug '" <> c.slug <> "' already exists"))
    let org : OrgData = record {
      slug = c.slug;
      name = c.name;
      contact = c.contact;
      created_at = c.timestamp;
      updated_at = c.timestamp;
    }
    done (record db { orgs = txn_put db.orgs c.slug org }, Response.org org, [])

  unfoldable pub apply_update_org : UpdateOrg → Handler
  apply_update_org c = do
    old ← some_or (txn_get db.orgs c.slug) (org_not_found c.slug)
    let org = record old {
      name = unwrap_or c.name old.name;
      contact = unwrap_or c.contact old.contact;
      updated_at = c.timestamp;
    }
    done (record db { orgs = txn_put db.orgs c.slug org }, Response.org org, [])

  unfoldable pub apply_delete_org : DeleteOrg → Handler
  apply_delete_org c = do
    return_if (not (txn_has db.orgs c.slug)) (org_not_found c.slug)
    let project_count = count_if (λ p. p.org_slug == c.slug) (txn_list db.projects)
    return_if (ltb 0 project_count) (
        Response.error 409 (
          "Org '"
          <> c.slug
          <> "' has "
          <> decimal project_count
          <> " project(s); delete them first"))
    done (record db { orgs = txn_delete db.orgs c.slug }, Response.deleted c.slug, [])

  unfoldable pub apply_create_project : CreateProject → Handler
  apply_create_project c = do
    return_if (txn_has db.projects c.slug)
        (Response.error 409 ("Project with slug '" <> c.slug <> "' already exists"))
    return_if (not (txn_has db.orgs c.org_slug)) (org_not_found c.org_slug)
    let project : ProjectData = record {
      slug = c.slug;
      org_slug = c.org_slug;
      name = c.name;
      description = c.description;
      created_at = c.timestamp;
      updated_at = c.timestamp;
    }
    done (record db { projects = txn_put db.projects c.slug project }, Response.project project, [])

  unfoldable pub apply_delete_project : DeleteProject → Handler
  apply_delete_project c = do
    return_if (not (txn_has db.projects c.slug)) (project_not_found c.slug)
    done (record db { projects = txn_delete db.projects c.slug }, Response.deleted c.slug, [])
