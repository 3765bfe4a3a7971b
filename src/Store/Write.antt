-- ===== src/Store/Write.antt =====
-- The methods of the store that write one command, gathered as a type, with that command.
-- (mvirt-cplane/src/store/raft_store.rs)
use mvirt.Command.{Command}
use mvirt.Prelude.{String, Bool}
use mvirt.Resource.Node.{RevocationReason}
use mvirt.Store.Request.{
  RegisterNodeRequest, UpdateNodeStatusRequest, CreateNetworkRequest, UpdateNetworkRequest,
  CreateNicRequest, UpdateNicRequest, CreateVmRequest, UpdateVmSpecRequest, UpdateVmStatusRequest,
  CreateOrgRequest, UpdateOrgRequest, CreateProjectRequest, CreateClusterRequest,
  UpdateClusterRequest, CreateOnboardingTokenRequest, RedeemOnboardingTokenRequest,
  CreateVolumeRequest, ResizeVolumeRequest, CreateSnapshotRequest, CreateTemplateRequest,
  UpdateTemplateStatusRequest, UpdateNicStatusRequest, EnsureAccountRequest,
  CreateAccountByEmailRequest, CreateMembershipRequest, CreateServiceAccountRequest,
  CreateStaticApiKeyRequest, UpdateVolumeStatusRequest, CreateSecurityGroupRequest,
  CreateSecurityGroupRuleRequest, UpdateSecurityGroupRequest, UpdateSecurityGroupRuleRequest,
}
use mvirt.Store.Call.{Fresh}
use mvirt.Store.Onboarding.{Crates}
use mvirt.Store.Node.{upsert_node_command, update_node_status_command, deregister_node_command}
use mvirt.Store.Network.{create_network_command, update_network_command, delete_network_command}
use mvirt.Store.Nic.{
  create_nic_command, update_nic_command, update_nic_status_command, delete_nic_command,
  attach_nic_command, detach_nic_command,
}
use mvirt.Store.Vm.{
  update_vm_spec_command, create_vm_command, update_vm_status_command, delete_vm_command,
}
use mvirt.Store.Org.{
  create_org_command, update_org_command, create_project_command, delete_org_command,
  delete_project_command,
}
use mvirt.Store.Cluster.{
  create_cluster_command, update_cluster_command, add_node_to_cluster_command,
  remove_node_from_cluster_command, delete_cluster_command,
}
use mvirt.Store.Volume.{
  create_volume_command, resize_volume_command, create_snapshot_command,
  update_volume_status_command, delete_volume_command,
}
use mvirt.Store.Template.{create_template_command, update_template_status_command}
use mvirt.Store.SecurityGroup.{
  create_security_group_command, update_security_group_command, create_security_group_rule_command,
  delete_security_group_rule_command, update_security_group_rule_command,
  delete_security_group_command,
}
use mvirt.Store.Onboarding.{
  revoke_node_cert_command, redeem_onboarding_token_command, delete_onboarding_token_command,
  create_onboarding_token_command,
}
use mvirt.Store.Account.{
  ensure_account_from_oidc_command, create_account_by_email_command, create_membership_command,
  bootstrap_initial_platform_admin_command, delete_membership_command,
}
use mvirt.Store.Service.{
  create_service_account_command, create_static_api_key_command, delete_service_account_command,
  revoke_static_api_key_command,
}

pub data Write : Type 0 where
  upsert_node : Fresh → String → RegisterNodeRequest → Write
  update_node_status : Fresh → String → UpdateNodeStatusRequest → Write
  deregister_node : Fresh → String → Write
  create_network : Fresh → CreateNetworkRequest → Write
  update_network : Fresh → String → UpdateNetworkRequest → Write
  delete_network : Fresh → String → Bool → Write
  create_nic : Fresh → CreateNicRequest → Write
  update_nic : Fresh → String → UpdateNicRequest → Write
  update_nic_status : Fresh → String → UpdateNicStatusRequest → Write
  delete_nic : Fresh → String → Write
  attach_nic : Fresh → String → String → Write
  detach_nic : Fresh → String → Write
  update_vm_spec : Fresh → String → UpdateVmSpecRequest → Write
  create_vm : Fresh → CreateVmRequest → Write
  update_vm_status : Fresh → String → UpdateVmStatusRequest → Write
  delete_vm : Fresh → String → Write
  create_org : Fresh → CreateOrgRequest → Write
  update_org : Fresh → String → UpdateOrgRequest → Write
  create_project : Fresh → CreateProjectRequest → Write
  delete_org : Fresh → String → Write
  delete_project : Fresh → String → Write
  create_cluster : Fresh → CreateClusterRequest → Write
  update_cluster : Fresh → String → UpdateClusterRequest → Write
  add_node_to_cluster : Fresh → String → String → Write
  remove_node_from_cluster : Fresh → String → String → Write
  delete_cluster : Fresh → String → Write
  create_volume : Fresh → CreateVolumeRequest → Write
  resize_volume : Fresh → String → ResizeVolumeRequest → Write
  create_snapshot : Fresh → String → CreateSnapshotRequest → Write
  update_volume_status : Fresh → String → UpdateVolumeStatusRequest → Write
  delete_volume : Fresh → String → Write
  create_template : Fresh → CreateTemplateRequest → Write
  update_template_status : Fresh → String → UpdateTemplateStatusRequest → Write
  create_security_group : Fresh → CreateSecurityGroupRequest → Write
  update_security_group : Fresh → String → UpdateSecurityGroupRequest → Write
  create_security_group_rule : Fresh → String → CreateSecurityGroupRuleRequest → Write
  delete_security_group_rule : Fresh → String → String → Write
  update_security_group_rule : Fresh → String → String → UpdateSecurityGroupRuleRequest → Write
  delete_security_group : Fresh → String → Write
  revoke_node_cert : Fresh → String → RevocationReason → Write
  redeem_onboarding_token : Crates → Fresh → RedeemOnboardingTokenRequest → Write
  delete_onboarding_token : Fresh → String → String → Write
  create_onboarding_token : Crates → Fresh → CreateOnboardingTokenRequest → Write
  ensure_account_from_oidc : Fresh → EnsureAccountRequest → Write
  create_account_by_email : Fresh → CreateAccountByEmailRequest → Write
  create_membership : Fresh → CreateMembershipRequest → Write
  bootstrap_initial_platform_admin : Fresh → String → Write
  delete_membership : Fresh → String → Write
  create_service_account : Fresh → CreateServiceAccountRequest → Write
  create_static_api_key : Fresh → CreateStaticApiKeyRequest → Write
  delete_service_account : Fresh → String → Write
  revoke_static_api_key : Fresh → String → Write

unfoldable pub command_of : Write → Command
unfolding upsert_node_command update_node_status_command deregister_node_command
    create_network_command update_network_command delete_network_command create_nic_command
    update_nic_command update_nic_status_command delete_nic_command attach_nic_command
    detach_nic_command update_vm_spec_command create_vm_command update_vm_status_command
    delete_vm_command create_org_command update_org_command create_project_command
    delete_org_command delete_project_command create_cluster_command update_cluster_command
    add_node_to_cluster_command remove_node_from_cluster_command delete_cluster_command
    create_volume_command resize_volume_command create_snapshot_command update_volume_status_command
    delete_volume_command create_template_command update_template_status_command
    create_security_group_command update_security_group_command create_security_group_rule_command
    delete_security_group_rule_command update_security_group_rule_command
    delete_security_group_command revoke_node_cert_command redeem_onboarding_token_command
    delete_onboarding_token_command create_onboarding_token_command ensure_account_from_oidc_command
    create_account_by_email_command create_membership_command
    bootstrap_initial_platform_admin_command delete_membership_command
    create_service_account_command create_static_api_key_command delete_service_account_command
    revoke_static_api_key_command
command_of (Write.upsert_node f x1 x2) = upsert_node_command f x1 x2
command_of (Write.update_node_status f x1 x2) = update_node_status_command f x1 x2
command_of (Write.deregister_node f x1) = deregister_node_command f x1
command_of (Write.create_network f x1) = create_network_command f x1
command_of (Write.update_network f x1 x2) = update_network_command f x1 x2
command_of (Write.delete_network f x1 x2) = delete_network_command f x1 x2
command_of (Write.create_nic f x1) = create_nic_command f x1
command_of (Write.update_nic f x1 x2) = update_nic_command f x1 x2
command_of (Write.update_nic_status f x1 x2) = update_nic_status_command f x1 x2
command_of (Write.delete_nic f x1) = delete_nic_command f x1
command_of (Write.attach_nic f x1 x2) = attach_nic_command f x1 x2
command_of (Write.detach_nic f x1) = detach_nic_command f x1
command_of (Write.update_vm_spec f x1 x2) = update_vm_spec_command f x1 x2
command_of (Write.create_vm f x1) = create_vm_command f x1
command_of (Write.update_vm_status f x1 x2) = update_vm_status_command f x1 x2
command_of (Write.delete_vm f x1) = delete_vm_command f x1
command_of (Write.create_org f x1) = create_org_command f x1
command_of (Write.update_org f x1 x2) = update_org_command f x1 x2
command_of (Write.create_project f x1) = create_project_command f x1
command_of (Write.delete_org f x1) = delete_org_command f x1
command_of (Write.delete_project f x1) = delete_project_command f x1
command_of (Write.create_cluster f x1) = create_cluster_command f x1
command_of (Write.update_cluster f x1 x2) = update_cluster_command f x1 x2
command_of (Write.add_node_to_cluster f x1 x2) = add_node_to_cluster_command f x1 x2
command_of (Write.remove_node_from_cluster f x1 x2) = remove_node_from_cluster_command f x1 x2
command_of (Write.delete_cluster f x1) = delete_cluster_command f x1
command_of (Write.create_volume f x1) = create_volume_command f x1
command_of (Write.resize_volume f x1 x2) = resize_volume_command f x1 x2
command_of (Write.create_snapshot f x1 x2) = create_snapshot_command f x1 x2
command_of (Write.update_volume_status f x1 x2) = update_volume_status_command f x1 x2
command_of (Write.delete_volume f x1) = delete_volume_command f x1
command_of (Write.create_template f x1) = create_template_command f x1
command_of (Write.update_template_status f x1 x2) = update_template_status_command f x1 x2
command_of (Write.create_security_group f x1) = create_security_group_command f x1
command_of (Write.update_security_group f x1 x2) = update_security_group_command f x1 x2
command_of (Write.create_security_group_rule f x1 x2) = create_security_group_rule_command f x1 x2
command_of (Write.delete_security_group_rule f x1 x2) = delete_security_group_rule_command f x1 x2
command_of (Write.update_security_group_rule f x1 x2 x3) =
    update_security_group_rule_command f x1 x2 x3
command_of (Write.delete_security_group f x1) = delete_security_group_command f x1
command_of (Write.revoke_node_cert f x1 x2) = revoke_node_cert_command f x1 x2
command_of (Write.redeem_onboarding_token crates f x2) = redeem_onboarding_token_command crates f x2
command_of (Write.delete_onboarding_token f x1 x2) = delete_onboarding_token_command f x1 x2
command_of (Write.create_onboarding_token crates f x2) = create_onboarding_token_command crates f x2
command_of (Write.ensure_account_from_oidc f x1) = ensure_account_from_oidc_command f x1
command_of (Write.create_account_by_email f x1) = create_account_by_email_command f x1
command_of (Write.create_membership f x1) = create_membership_command f x1
command_of (Write.bootstrap_initial_platform_admin f x1) =
    bootstrap_initial_platform_admin_command f x1
command_of (Write.delete_membership f x1) = delete_membership_command f x1
command_of (Write.create_service_account f x1) = create_service_account_command f x1
command_of (Write.create_static_api_key f x1) = create_static_api_key_command f x1
command_of (Write.delete_service_account f x1) = delete_service_account_command f x1
command_of (Write.revoke_static_api_key f x1) = revoke_static_api_key_command f x1
