-- ===== src/Store/SecurityGroup.antt =====
-- mvirt-cplane/src/store/raft_store.rs: the methods of the store for security groups.
use mvirt.Prelude.{none, some, some, List, String, Option, [], ◌∷◌}
use mvirt.Redb.{Redb}
use mvirt.Lru.{Lru}
use mvirt.Query
use mvirt.Command.{Command}
use mvirt.Resource.SecurityGroup.{SecurityGroupData}
use mvirt.Store.Error.StoreError.{not_found, conflict}
use mvirt.Store.Request.{
  CreateSecurityGroupRequest, CreateSecurityGroupRuleRequest, UpdateSecurityGroupRequest,
  UpdateSecurityGroupRuleRequest,
}
use mvirt.Store.Raft.{Raft}
use mvirt.Store.Call.{Fresh, Store, read, send, reply}
use mvirt.Store.Answer.{as_deleted, as_security_group}

unfoldable pub create_security_group_command : Fresh → CreateSecurityGroupRequest → Command
create_security_group_command f req = Command.create_security_group (record {
  request_id = f.request_id;
  id = f.uuid;
  timestamp = f.now;
  project_slug = req.project_slug;
  name = req.name;
  description = req.description;
})

unfoldable pub update_security_group_command : Fresh → String → UpdateSecurityGroupRequest → Command
update_security_group_command f id req = Command.update_security_group (record {
  request_id = f.request_id;
  timestamp = f.now;
  id = id;
  name = req.name;
  description = req.description;
})

unfoldable pub create_security_group_rule_command :
    Fresh → String → CreateSecurityGroupRuleRequest → Command
create_security_group_rule_command f security_group_id req =
    Command.create_security_group_rule (record {
      request_id = f.request_id;
      id = f.uuid;
      timestamp = f.now;
      security_group_id = security_group_id;
      direction = req.direction;
      protocol = req.protocol;
      port_range_start = req.port_range_start;
      port_range_end = req.port_range_end;
      cidr = req.cidr;
      description = req.description;
    })

unfoldable pub delete_security_group_rule_command : Fresh → String → String → Command
delete_security_group_rule_command f security_group_id rule_id =
    Command.delete_security_group_rule (record {
      request_id = f.request_id;
      security_group_id = security_group_id;
      rule_id = rule_id;
    })

unfoldable pub update_security_group_rule_command :
    Fresh → String → String → UpdateSecurityGroupRuleRequest → Command
update_security_group_rule_command f security_group_id rule_id req =
    Command.update_security_group_rule (record {
      request_id = f.request_id;
      timestamp = f.now;
      security_group_id = security_group_id;
      rule_id = rule_id;
      description = req.description;
    })

unfoldable pub delete_security_group_command : Fresh → String → Command
delete_security_group_command f id =
    Command.delete_security_group (record { request_id = f.request_id; id = id })

module _ ⦃redb : Redb⦄ ⦃lru : Lru⦄ ⦃raft : Raft⦄ where
  unfoldable pub get_security_group : String → Store (Option SecurityGroupData)
  unfolding read
  get_security_group id = read (λ db. Query.Network.get_security_group db id)

  unfoldable pub create_security_group :
      Fresh → CreateSecurityGroupRequest → Store SecurityGroupData
  create_security_group f req =
      send (create_security_group_command f req)
        (reply as_security_group ((404, not_found) ∷ (409, conflict) ∷ []))

  unfoldable pub update_security_group :
      Fresh → String → UpdateSecurityGroupRequest → Store SecurityGroupData
  update_security_group f id req =
      send (update_security_group_command f id req)
        (reply as_security_group ((404, not_found) ∷ []))

  unfoldable pub delete_security_group : Fresh → String → Store (Unit {0})
  delete_security_group f id =
      send (delete_security_group_command f id)
        (reply as_deleted ((404, not_found) ∷ (409, conflict) ∷ []))

  unfoldable pub create_security_group_rule :
      Fresh → String → CreateSecurityGroupRuleRequest → Store SecurityGroupData
  create_security_group_rule f security_group_id req =
      send (create_security_group_rule_command f security_group_id req)
        (reply as_security_group ((404, not_found) ∷ (409, conflict) ∷ []))

  unfoldable pub delete_security_group_rule : Fresh → String → String → Store SecurityGroupData
  delete_security_group_rule f security_group_id rule_id =
      send (delete_security_group_rule_command f security_group_id rule_id)
        (reply as_security_group ((404, not_found) ∷ (409, conflict) ∷ []))

  unfoldable pub update_security_group_rule :
      Fresh → String → String → UpdateSecurityGroupRuleRequest → Store SecurityGroupData
  update_security_group_rule f security_group_id rule_id req =
      send (update_security_group_rule_command f security_group_id rule_id req)
        (reply as_security_group ((404, not_found) ∷ []))

  unfoldable pub list_security_groups : Option String → Store (List SecurityGroupData)
  unfolding read
  list_security_groups (some pid) =
      read (λ db. Query.Network.list_security_groups_by_project db pid)
  list_security_groups none = read (λ db. Query.Network.list_security_groups db)
