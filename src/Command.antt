-- ===== src/Command.antt =====
-- mvirt-cplane/src/command.rs: the commands that are replicated through Raft. Each variant carries a
-- record of its fields.
pub mod Node
pub mod Network
pub mod Nic
pub mod Vm
pub mod Org
pub mod Cluster
pub mod Onboarding
pub mod Account
pub mod Volume
pub mod Template
pub mod SecurityGroup
use mvirt.Prelude.{String}
use Node.{RegisterNode, UpdateNodeStatus, DeregisterNode}
use Network.{CreateNetwork, UpdateNetwork, DeleteNetwork}
use Nic.{CreateNic, UpdateNic, DeleteNic, AttachNic, DetachNic, UpdateNicStatus}
use Vm.{CreateVm, UpdateVmSpec, UpdateVmStatus, DeleteVm}
use Org.{CreateOrg, UpdateOrg, DeleteOrg, CreateProject, DeleteProject}
use Cluster.{CreateCluster, UpdateCluster, DeleteCluster, AddNodeToCluster, RemoveNodeFromCluster}
use Onboarding.{
  EnsureInternalCa, UpdateServerCert, CreateOnboardingToken, DeleteOnboardingToken,
  RedeemOnboardingToken, RevokeNodeCert,
}
use Account.{
  CreateAccountByEmail, EnsureAccountFromOidc, CreateMembership, DeleteMembership,
  BootstrapInitialPlatformAdmin, CreateServiceAccount, DeleteServiceAccount, CreateStaticApiKey,
  RevokeStaticApiKey,
}
use Volume.{CreateVolume, DeleteVolume, UpdateVolumeStatus, ResizeVolume, CreateSnapshot}
use Template.{CreateTemplate, UpdateTemplateStatus}
use SecurityGroup.{
  CreateSecurityGroup, UpdateSecurityGroup, DeleteSecurityGroup, CreateSecurityGroupRule,
  DeleteSecurityGroupRule, UpdateSecurityGroupRule,
}

pub data Command : Type 0 where
  register_node : RegisterNode → Command
  update_node_status : UpdateNodeStatus → Command
  deregister_node : DeregisterNode → Command
  create_network : CreateNetwork → Command
  update_network : UpdateNetwork → Command
  delete_network : DeleteNetwork → Command
  create_nic : CreateNic → Command
  update_nic : UpdateNic → Command
  delete_nic : DeleteNic → Command
  attach_nic : AttachNic → Command
  detach_nic : DetachNic → Command
  update_nic_status : UpdateNicStatus → Command
  create_vm : CreateVm → Command
  update_vm_spec : UpdateVmSpec → Command
  update_vm_status : UpdateVmStatus → Command
  delete_vm : DeleteVm → Command
  create_org : CreateOrg → Command
  update_org : UpdateOrg → Command
  delete_org : DeleteOrg → Command
  create_project : CreateProject → Command
  delete_project : DeleteProject → Command
  ensure_internal_ca : EnsureInternalCa → Command
  update_server_cert : UpdateServerCert → Command
  create_onboarding_token : CreateOnboardingToken → Command
  delete_onboarding_token : DeleteOnboardingToken → Command
  redeem_onboarding_token : RedeemOnboardingToken → Command
  revoke_node_cert : RevokeNodeCert → Command
  create_account_by_email : CreateAccountByEmail → Command
  ensure_account_from_oidc : EnsureAccountFromOidc → Command
  create_membership : CreateMembership → Command
  delete_membership : DeleteMembership → Command
  bootstrap_initial_platform_admin : BootstrapInitialPlatformAdmin → Command
  create_service_account : CreateServiceAccount → Command
  delete_service_account : DeleteServiceAccount → Command
  create_static_api_key : CreateStaticApiKey → Command
  revoke_static_api_key : RevokeStaticApiKey → Command
  create_cluster : CreateCluster → Command
  update_cluster : UpdateCluster → Command
  delete_cluster : DeleteCluster → Command
  add_node_to_cluster : AddNodeToCluster → Command
  remove_node_from_cluster : RemoveNodeFromCluster → Command
  create_volume : CreateVolume → Command
  delete_volume : DeleteVolume → Command
  update_volume_status : UpdateVolumeStatus → Command
  resize_volume : ResizeVolume → Command
  create_snapshot : CreateSnapshot → Command
  create_template : CreateTemplate → Command
  update_template_status : UpdateTemplateStatus → Command
  create_security_group : CreateSecurityGroup → Command
  update_security_group : UpdateSecurityGroup → Command
  delete_security_group : DeleteSecurityGroup → Command
  create_security_group_rule : CreateSecurityGroupRule → Command
  delete_security_group_rule : DeleteSecurityGroupRule → Command
  update_security_group_rule : UpdateSecurityGroupRule → Command

unfoldable pub request_id : Command → String
request_id (register_node c) = c.request_id
request_id (update_node_status c) = c.request_id
request_id (deregister_node c) = c.request_id
request_id (create_network c) = c.request_id
request_id (update_network c) = c.request_id
request_id (delete_network c) = c.request_id
request_id (create_nic c) = c.request_id
request_id (update_nic c) = c.request_id
request_id (delete_nic c) = c.request_id
request_id (attach_nic c) = c.request_id
request_id (detach_nic c) = c.request_id
request_id (update_nic_status c) = c.request_id
request_id (create_vm c) = c.request_id
request_id (update_vm_spec c) = c.request_id
request_id (update_vm_status c) = c.request_id
request_id (delete_vm c) = c.request_id
request_id (create_org c) = c.request_id
request_id (update_org c) = c.request_id
request_id (delete_org c) = c.request_id
request_id (create_project c) = c.request_id
request_id (delete_project c) = c.request_id
request_id (ensure_internal_ca c) = c.request_id
request_id (update_server_cert c) = c.request_id
request_id (create_onboarding_token c) = c.request_id
request_id (delete_onboarding_token c) = c.request_id
request_id (redeem_onboarding_token c) = c.request_id
request_id (revoke_node_cert c) = c.request_id
request_id (create_account_by_email c) = c.request_id
request_id (ensure_account_from_oidc c) = c.request_id
request_id (create_membership c) = c.request_id
request_id (delete_membership c) = c.request_id
request_id (bootstrap_initial_platform_admin c) = c.request_id
request_id (create_service_account c) = c.request_id
request_id (delete_service_account c) = c.request_id
request_id (create_static_api_key c) = c.request_id
request_id (revoke_static_api_key c) = c.request_id
request_id (create_cluster c) = c.request_id
request_id (update_cluster c) = c.request_id
request_id (delete_cluster c) = c.request_id
request_id (add_node_to_cluster c) = c.request_id
request_id (remove_node_from_cluster c) = c.request_id
request_id (create_volume c) = c.request_id
request_id (delete_volume c) = c.request_id
request_id (update_volume_status c) = c.request_id
request_id (resize_volume c) = c.request_id
request_id (create_snapshot c) = c.request_id
request_id (create_template c) = c.request_id
request_id (update_template_status c) = c.request_id
request_id (create_security_group c) = c.request_id
request_id (update_security_group c) = c.request_id
request_id (delete_security_group c) = c.request_id
request_id (create_security_group_rule c) = c.request_id
request_id (delete_security_group_rule c) = c.request_id
request_id (update_security_group_rule c) = c.request_id
