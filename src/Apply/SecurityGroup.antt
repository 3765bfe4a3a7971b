-- ===== src/Apply/SecurityGroup.antt =====
-- mvirt-cplane/src/state.rs: the handlers of the security group commands.
use mvirt.Prelude.{
  String, ◌<>◌, Option, some, List, [], ◌∷◌, ◌++◌, ◌==◌, ◌&&◌, any, keep, length, nat_eq, opt_eq,
  unwrap_or, not, if◌then◌else◌,
}
use mvirt.Redb.{Redb}
use mvirt.Redb.Txn.{txn_get, txn_has, txn_list, txn_put, txn_delete}
use mvirt.Resource.SecurityGroup.{SecurityGroupData, SecurityGroupRuleData}
use mvirt.Command.SecurityGroup.{
  CreateSecurityGroup, UpdateSecurityGroup, DeleteSecurityGroup, CreateSecurityGroupRule,
  DeleteSecurityGroupRule, UpdateSecurityGroupRule,
}
use mvirt.Response.{Response, Event}
use mvirt.State.{Tables}
use mvirt.Apply.Outcome.{Handler, done, ◌>>=◌, ◌>>◌, return_if, some_or, return_existing}
use mvirt.Apply.Nic.{security_group_not_found}
use mvirt.Apply.Org.{project_not_found}

abbrev pub rule_not_found : String → Response
rule_not_found id = Response.error 404 ("Rule '" <> id <> "' not found")

-- `iter_mut().find(|r| r.id == rule_id)` and the write through it: the first rule of the id.
unfoldable pub describe :
    String → Option (Option String) → List SecurityGroupRuleData → List SecurityGroupRuleData
describe id d [] = []
describe id d (r ∷ rest) =
    if r.id == id
    then record r { description = unwrap_or d r.description } ∷ rest
    else r ∷ describe id d rest

module _ ⦃redb : Redb⦄ (db : Tables) where
  unfoldable pub apply_create_security_group : CreateSecurityGroup → Handler
  apply_create_security_group c = do
    return_existing (txn_get db.security_groups c.id) Response.security_group
    return_if
        (any (λ sg. sg.project_slug == c.project_slug && sg.name == c.name)
          (txn_list db.security_groups))
        (Response.error 409 ("Security group '" <> c.name <> "' already exists in project"))
    return_if (not (txn_has db.projects c.project_slug)) (project_not_found c.project_slug)
    let sg : SecurityGroupData = record {
      id = c.id;
      project_slug = c.project_slug;
      name = c.name;
      description = c.description;
      rules = [];
      nic_count = 0;
      created_at = c.timestamp;
      updated_at = c.timestamp;
    }
    done (
      record db { security_groups = txn_put db.security_groups c.id sg },
      Response.security_group sg,
      Event.security_group_created c.id ∷ [],
    )

  unfoldable pub apply_update_security_group : UpdateSecurityGroup → Handler
  apply_update_security_group c = do
    old ← some_or (txn_get db.security_groups c.id) (security_group_not_found c.id)
    let sg = record old {
      name = unwrap_or c.name old.name;
      description = unwrap_or c.description old.description;
      updated_at = c.timestamp;
    }
    done (
      record db { security_groups = txn_put db.security_groups c.id sg },
      Response.security_group sg,
      [],
    )

  unfoldable pub apply_delete_security_group : DeleteSecurityGroup → Handler
  apply_delete_security_group c = do
    return_if (any (λ n. opt_eq n.spec.security_group_id (some c.id)) (txn_list db.nics))
        (Response.error 409 ("Security group '" <> c.id <> "' is still referenced by NICs"))
    return_if (not (txn_has db.security_groups c.id)) (security_group_not_found c.id)
    done (
      record db { security_groups = txn_delete db.security_groups c.id },
      Response.deleted c.id,
      Event.security_group_deleted c.id ∷ [],
    )

  unfoldable pub apply_create_security_group_rule : CreateSecurityGroupRule → Handler
  apply_create_security_group_rule c = do
    old ←
        some_or (txn_get db.security_groups c.security_group_id)
          (security_group_not_found c.security_group_id)
    return_if (any (λ r. r.id == c.id) old.rules) (Response.security_group old)
    let rule : SecurityGroupRuleData = record {
      id = c.id;
      direction = c.direction;
      protocol = c.protocol;
      port_range_start = c.port_range_start;
      port_range_end = c.port_range_end;
      cidr = c.cidr;
      description = c.description;
      created_at = c.timestamp;
    }
    let sg = record old { rules = old.rules ++ rule ∷ []; updated_at = c.timestamp }
    done (
      record db { security_groups = txn_put db.security_groups c.security_group_id sg },
      Response.security_group sg,
      [],
    )

  unfoldable pub apply_delete_security_group_rule : DeleteSecurityGroupRule → Handler
  apply_delete_security_group_rule c = do
    old ←
        some_or (txn_get db.security_groups c.security_group_id)
          (security_group_not_found c.security_group_id)
    let rest = keep (λ r. not (r.id == c.rule_id)) old.rules
    return_if (nat_eq (length rest) (length old.rules)) (rule_not_found c.rule_id)
    let sg = record old { rules = rest }
    done (
      record db { security_groups = txn_put db.security_groups c.security_group_id sg },
      Response.security_group sg,
      [],
    )

  unfoldable pub apply_update_security_group_rule : UpdateSecurityGroupRule → Handler
  apply_update_security_group_rule c = do
    old ←
        some_or (txn_get db.security_groups c.security_group_id)
          (security_group_not_found c.security_group_id)
    return_if (not (any (λ r. r.id == c.rule_id) old.rules)) (rule_not_found c.rule_id)
    let sg = record old {
      rules = describe c.rule_id c.description old.rules;
      updated_at = c.timestamp;
    }
    done (
      record db { security_groups = txn_put db.security_groups c.security_group_id sg },
      Response.security_group sg,
      [],
    )
