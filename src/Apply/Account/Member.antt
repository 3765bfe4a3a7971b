-- ===== src/Apply/Account/Member.antt =====
-- mvirt-cplane/src/state.rs: the handlers of the memberships.
use mvirt.Prelude.{String, ◌<>◌, Bool, true, false, [], ◌==◌, ◌&&◌, any, not}
use mvirt.Redb.{Redb}
use mvirt.Redb.Txn.{txn_has, txn_list, txn_put, txn_delete}
use mvirt.Resource.Account.{AccountKind, MembershipData, MembershipScope, Role}
use mvirt.Command.Account.{CreateMembership, DeleteMembership, BootstrapInitialPlatformAdmin}
use mvirt.Response.{Response}
use mvirt.State.{Tables}
use mvirt.Apply.Outcome.{Outcome, Handler, done, ◌>>◌, return_if}
use mvirt.Apply.Org.{org_not_found, project_not_found}

abbrev pub account_not_found : String → Response
account_not_found id = Response.error 404 ("Account '" <> id <> "' not found")

abbrev pub is_service_account : AccountKind → Bool
is_service_account AccountKind.service_account = true
is_service_account AccountKind.user = false

unfoldable pub scope_eq : MembershipScope → MembershipScope → Bool
scope_eq MembershipScope.platform MembershipScope.platform = true
scope_eq (MembershipScope.org a) (MembershipScope.org b) = a == b
scope_eq (MembershipScope.project a) (MembershipScope.project b) = a == b
scope_eq _ _ = false

unfoldable pub role_eq : Role → Role → Bool
role_eq Role.platform_admin Role.platform_admin = true
role_eq Role.org_admin Role.org_admin = true
role_eq Role.project_admin Role.project_admin = true
role_eq _ _ = false

-- `m.scope == Platform && m.role == PlatformAdmin`.
abbrev pub is_platform_admin : MembershipData → Bool
unfolding scope_eq role_eq
is_platform_admin m =
    scope_eq m.scope MembershipScope.platform && role_eq m.role Role.platform_admin

module _ ⦃redb : Redb⦄ where
  -- The target of a membership's scope exists.
  unfoldable pub check_scope : Tables → MembershipScope → Outcome (Unit {0})
  check_scope db MembershipScope.platform = done tt
  check_scope db (MembershipScope.org slug) =
      return_if (not (txn_has db.orgs slug)) (org_not_found slug)
  check_scope db (MembershipScope.project slug) =
      return_if (not (txn_has db.projects slug)) (project_not_found slug)

module _ ⦃redb : Redb⦄ (db : Tables) where
  unfoldable pub apply_create_membership : CreateMembership → Handler
  apply_create_membership c = do
    return_if (txn_has db.memberships c.id)
        (Response.error 409 ("Membership '" <> c.id <> "' already exists"))
    return_if (not (txn_has db.accounts c.account_id)) (account_not_found c.account_id)
    check_scope db c.scope
    return_if
        (any
          (λ m. m.account_id == c.account_id && scope_eq m.scope c.scope && role_eq m.role c.role)
          (txn_list db.memberships))
        (Response.error 409 "membership already granted")
    let m : MembershipData = record {
      id = c.id;
      account_id = c.account_id;
      scope = c.scope;
      role = c.role;
      created_by_account = c.created_by_account;
      created_at = c.timestamp;
    }
    done (record db { memberships = txn_put db.memberships c.id m }, Response.membership m, [])

  unfoldable pub apply_delete_membership : DeleteMembership → Handler
  apply_delete_membership c = do
    return_if (not (txn_has db.memberships c.id))
        (Response.error 404 ("Membership '" <> c.id <> "' not found"))
    done (record db { memberships = txn_delete db.memberships c.id }, Response.deleted c.id, [])

  unfoldable pub apply_bootstrap_initial_platform_admin : BootstrapInitialPlatformAdmin → Handler
  apply_bootstrap_initial_platform_admin c = do
    return_if (any is_platform_admin (txn_list db.memberships)) Response.ack
    return_if (not (txn_has db.accounts c.account_id)) (account_not_found c.account_id)
    let m : MembershipData = record {
      id = c.id;
      account_id = c.account_id;
      scope = MembershipScope.platform;
      role = Role.platform_admin;
      created_by_account = c.account_id;
      created_at = c.timestamp;
    }
    done (record db { memberships = txn_put db.memberships c.id m }, Response.membership m, [])
