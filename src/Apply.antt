-- ===== src/Apply.antt =====
-- mvirt-cplane/src/state.rs, `StateMachine::apply`: one replicated command, from the cache of
-- answered requests over the handler of the command to the cached answer. The handlers are the
-- children of this module.
pub mod Outcome
pub mod Mac
pub mod Replay
pub mod Ensures
pub mod Agree
pub mod Errors
pub mod Answers
pub mod Run
pub mod Node
pub mod Network
pub mod Nic
pub mod Vm
pub mod Org
pub mod Cluster
pub mod Onboarding
pub mod Account
pub mod Volume
pub mod Template
pub mod SecurityGroup
use mvirt.Prelude.{String, Option, none, some, List, []}
use mvirt.Redb.{Redb}
use mvirt.Lru.{Lru}
use mvirt.Replica.{Replica}
use mvirt.Response.{Response, Event}
use mvirt.Command
use mvirt.Command.{Command, request_id}
use mvirt.State.{Tables, ApiState}
use Outcome.{Handler, done, returned}
use Node.{apply_register_node, apply_update_node_status, apply_deregister_node}
use Network.{apply_create_network, apply_update_network, apply_delete_network}
use Nic.{
  apply_create_nic, apply_update_nic, apply_delete_nic, apply_attach_nic, apply_detach_nic,
  apply_update_nic_status,
}
use Vm.{apply_create_vm, apply_update_vm_spec, apply_update_vm_status, apply_delete_vm}
use Org.{
  apply_create_org, apply_update_org, apply_delete_org, apply_create_project, apply_delete_project,
}
use Cluster.{
  apply_create_cluster, apply_update_cluster, apply_delete_cluster, apply_add_node_to_cluster,
  apply_remove_node_from_cluster,
}
use Onboarding.{
  apply_ensure_internal_ca, apply_update_server_cert, apply_create_onboarding_token,
  apply_delete_onboarding_token, apply_redeem_onboarding_token, apply_revoke_node_cert,
}
use Account.{
  apply_create_account_by_email, apply_ensure_account_from_oidc, apply_create_membership,
  apply_delete_membership, apply_bootstrap_initial_platform_admin, apply_create_service_account,
  apply_delete_service_account, apply_create_static_api_key, apply_revoke_static_api_key,
}
use Volume.{
  apply_create_volume, apply_delete_volume, apply_update_volume_status, apply_resize_volume,
  apply_create_snapshot,
}
use Template.{apply_create_template, apply_update_template_status}
use SecurityGroup.{
  apply_create_security_group, apply_update_security_group, apply_delete_security_group,
  apply_create_security_group_rule, apply_delete_security_group_rule,
  apply_update_security_group_rule,
}

module _ ⦃redb : Redb⦄ where
  -- The `match` over the commands.
  unfoldable pub execute : Replica → Tables → Command → Handler
  unfolding apply_register_node apply_update_node_status apply_deregister_node apply_create_network
      apply_update_network apply_delete_network apply_create_nic apply_update_nic apply_delete_nic
      apply_attach_nic apply_detach_nic apply_update_nic_status apply_create_vm apply_update_vm_spec
      apply_update_vm_status apply_delete_vm apply_create_org apply_update_org apply_delete_org
      apply_create_project apply_delete_project apply_ensure_internal_ca apply_update_server_cert
      apply_create_onboarding_token apply_delete_onboarding_token apply_revoke_node_cert
      apply_create_membership apply_delete_membership apply_create_service_account
      apply_delete_service_account apply_create_static_api_key apply_revoke_static_api_key
      apply_create_cluster apply_update_cluster apply_delete_cluster apply_add_node_to_cluster
      apply_remove_node_from_cluster apply_create_volume apply_delete_volume
      apply_update_volume_status apply_resize_volume apply_create_snapshot apply_create_template
      apply_update_template_status apply_create_security_group apply_update_security_group
      apply_delete_security_group apply_create_security_group_rule apply_delete_security_group_rule
      apply_update_security_group_rule
  execute replica db (Command.register_node c) = apply_register_node db c
  execute replica db (Command.update_node_status c) = apply_update_node_status db c
  execute replica db (Command.deregister_node c) = apply_deregister_node db c
  execute replica db (Command.create_network c) = apply_create_network db c
  execute replica db (Command.update_network c) = apply_update_network db c
  execute replica db (Command.delete_network c) = apply_delete_network db c
  execute replica db (Command.create_nic c) = apply_create_nic db c
  execute replica db (Command.update_nic c) = apply_update_nic db c
  execute replica db (Command.delete_nic c) = apply_delete_nic db c
  execute replica db (Command.attach_nic c) = apply_attach_nic db c
  execute replica db (Command.detach_nic c) = apply_detach_nic db c
  execute replica db (Command.update_nic_status c) = apply_update_nic_status db c
  execute replica db (Command.create_vm c) = apply_create_vm db c
  execute replica db (Command.update_vm_spec c) = apply_update_vm_spec db c
  execute replica db (Command.update_vm_status c) = apply_update_vm_status db c
  execute replica db (Command.delete_vm c) = apply_delete_vm db replica.now c
  execute replica db (Command.create_org c) = apply_create_org db c
  execute replica db (Command.update_org c) = apply_update_org db c
  execute replica db (Command.delete_org c) = apply_delete_org db c
  execute replica db (Command.create_project c) = apply_create_project db c
  execute replica db (Command.delete_project c) = apply_delete_project db c
  execute replica db (Command.ensure_internal_ca c) = apply_ensure_internal_ca db c
  execute replica db (Command.update_server_cert c) = apply_update_server_cert db c
  execute replica db (Command.create_onboarding_token c) = apply_create_onboarding_token db c
  execute replica db (Command.delete_onboarding_token c) = apply_delete_onboarding_token db c
  execute replica db (Command.redeem_onboarding_token c) =
      apply_redeem_onboarding_token db replica c
  execute replica db (Command.revoke_node_cert c) = apply_revoke_node_cert db c
  execute replica db (Command.create_account_by_email c) =
      apply_create_account_by_email db replica c
  execute replica db (Command.ensure_account_from_oidc c) =
      apply_ensure_account_from_oidc db replica c
  execute replica db (Command.create_membership c) = apply_create_membership db c
  execute replica db (Command.delete_membership c) = apply_delete_membership db c
  execute replica db (Command.bootstrap_initial_platform_admin c) =
      apply_bootstrap_initial_platform_admin db c
  execute replica db (Command.create_service_account c) = apply_create_service_account db c
  execute replica db (Command.delete_service_account c) = apply_delete_service_account db c
  execute replica db (Command.create_static_api_key c) = apply_create_static_api_key db c
  execute replica db (Command.revoke_static_api_key c) = apply_revoke_static_api_key db c
  execute replica db (Command.create_cluster c) = apply_create_cluster db c
  execute replica db (Command.update_cluster c) = apply_update_cluster db c
  execute replica db (Command.delete_cluster c) = apply_delete_cluster db c
  execute replica db (Command.add_node_to_cluster c) = apply_add_node_to_cluster db c
  execute replica db (Command.remove_node_from_cluster c) = apply_remove_node_from_cluster db c
  execute replica db (Command.create_volume c) = apply_create_volume db c
  execute replica db (Command.delete_volume c) = apply_delete_volume db c
  execute replica db (Command.update_volume_status c) = apply_update_volume_status db c
  execute replica db (Command.resize_volume c) = apply_resize_volume db c
  execute replica db (Command.create_snapshot c) = apply_create_snapshot db c
  execute replica db (Command.create_template c) = apply_create_template db c
  execute replica db (Command.update_template_status c) = apply_update_template_status db c
  execute replica db (Command.create_security_group c) = apply_create_security_group db c
  execute replica db (Command.update_security_group c) = apply_update_security_group db c
  execute replica db (Command.delete_security_group c) = apply_delete_security_group db c
  execute replica db (Command.create_security_group_rule c) = apply_create_security_group_rule db c
  execute replica db (Command.delete_security_group_rule c) = apply_delete_security_group_rule db c
  execute replica db (Command.update_security_group_rule c) = apply_update_security_group_rule db c

module _ ⦃redb : Redb⦄ ⦃lru : Lru⦄ where
  -- What `apply` leaves behind: the state, and the pair that it returns.
  pub record Applied : Type 0 where
    pub state : ApiState
    pub response : Response
    pub events : List Event

  -- An early return leaves the tables and the cache alone.
  abbrev pub finish : ApiState → String → Handler → Applied
  finish s id (returned response) = record { state = s; response = response; events = [] }
  finish s id (done (db, response, events)) = record {
    state = record { db = db; applied_requests = lru.put Response s.applied_requests id response };
    response = response;
    events = events;
  }

  unfoldable pub apply : Replica → ApiState → Command → Applied
  apply replica s cmd = elim (lru.peek Response s.applied_requests (request_id cmd)) [
    | some response ↦ record { state = s; response = response; events = [] }
    | none ↦ finish s (request_id cmd) (execute replica s.db cmd)
  ]
