-- ===== src/Invariant/Links/Projects.antt =====
-- The organization of a project.
use mvirt.Prelude.{count_if-any, ◌==◌, false, count_if, ltb, String, ◌≡◌, some, arith}
use mvirt.Redb.{Redb}
use mvirt.Redb.Txn.{txn_list, txn_delete, Table}
use mvirt.Replica.{Replica}
use mvirt.State.{Tables}
use mvirt.Command.{Command}
use mvirt.Apply.{execute}
use mvirt.Apply.Ensures.{Ensures, ensures_rules, guard_rules}
use mvirt.Redb.Linked.{
  IsLinked, IsLinked-put_target, IsLinked-put_source, IsLinked-delete_source,
  IsLinked-delete_target,
}
use mvirt.Redb.Txn.Laws.{any-txn_get}
use mvirt.Resource.Org.{OrgData, ProjectData}
use mvirt.Apply.Onboarding.{apply_redeem_onboarding_token}
use mvirt.Apply.Account.{
  apply_create_account_by_email, apply_ensure_account_from_oidc,
  apply_bootstrap_initial_platform_admin,
}
use package.mvirt.Invariant.Links.Targets.{has_key}

module _ ⦃redb : Redb⦄ where
  abbrev pub ProjectsLinked : Table OrgData → Table ProjectData → Type 0
  ProjectsLinked = IsLinked (λ p. some p.org_slug)

module _ ⦃redb : Redb⦄ (replica : Replica) (db : Tables) where
  delete_org-ProjectsLinked :
      (slug : String)
      → ProjectsLinked db.orgs db.projects
      → ltb 0 (count_if (λ p. p.org_slug == slug) (txn_list db.projects)) ≡ false
      → ProjectsLinked (txn_delete db.orgs slug) db.projects
  delete_org-ProjectsLinked slug h empty = IsLinked-delete_target _ h slug λ k p at_k.
      any-txn_get (λ x. x.org_slug == slug) db.projects k p
        (count_if-any (λ x. x.org_slug == slug) (txn_list db.projects) (ground (arith, empty))) at_k

  -- If a command commits and the organization of every project was there, it still is.
  pub execute-ProjectsLinked :
      (cmd : Command)
      → ProjectsLinked db.orgs db.projects
      → Ensures (λ a. ProjectsLinked a.0.orgs a.0.projects) (execute replica db cmd)
  unfolding execute apply_redeem_onboarding_token apply_create_account_by_email
      apply_ensure_account_from_oidc apply_bootstrap_initial_platform_admin
  execute-ProjectsLinked (Command.create_org c) h =
      search (guard_rules, IsLinked-put_target _ h) depth 9
  execute-ProjectsLinked (Command.update_org c) h =
      search (guard_rules, IsLinked-put_target _ h) depth 9
  execute-ProjectsLinked (Command.delete_org c) h =
      search (guard_rules, delete_org-ProjectsLinked) depth 9
  execute-ProjectsLinked (Command.create_project c) h =
      search (guard_rules, IsLinked-put_source _ h, has_key) depth 9
  execute-ProjectsLinked (Command.delete_project c) h =
      search (guard_rules, IsLinked-delete_source _ h) depth 9
  execute-ProjectsLinked _ h = search (ensures_rules, h) depth 12
