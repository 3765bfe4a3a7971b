-- ===== src/Store/Client.antt =====
-- A client of the store: a method is called, and its result is looked at for an error only.
use mvirt.Redb.{Redb}
use mvirt.Lru.{Lru}
use mvirt.Store.Error.{Result, ok, err}
use mvirt.Store.Raft.{Raft}
use mvirt.Store.Call.{Store}
use mvirt.Store.Write.{Write}
use mvirt.Store.Node.{upsert_node, update_node_status, deregister_node}
use mvirt.Store.Network.{create_network, update_network, delete_network}
use mvirt.Store.Nic.{create_nic, update_nic, update_nic_status, delete_nic, attach_nic, detach_nic}
use mvirt.Store.Vm.{update_vm_spec, create_vm, update_vm_status, delete_vm}
use mvirt.Store.Org.{create_org, update_org, create_project, delete_org, delete_project}
use mvirt.Store.Cluster.{
  create_cluster, update_cluster, add_node_to_cluster, remove_node_from_cluster, delete_cluster,
}
use mvirt.Store.Volume.{
  create_volume, resize_volume, create_snapshot, update_volume_status, delete_volume,
}
use mvirt.Store.Template.{create_template, update_template_status}
use mvirt.Store.SecurityGroup.{
  create_security_group, update_security_group, create_security_group_rule,
  delete_security_group_rule, update_security_group_rule, delete_security_group,
}
use mvirt.Store.Onboarding.{
  revoke_node_cert, redeem_onboarding_token, delete_onboarding_token, create_onboarding_token,
}
use mvirt.Store.Account.{
  ensure_account_from_oidc, create_account_by_email, create_membership,
  bootstrap_initial_platform_admin, delete_membership,
}
use mvirt.Store.Service.{
  create_service_account, create_static_api_key, delete_service_account, revoke_static_api_key,
}

module _ ⦃redb : Redb⦄ ⦃lru : Lru⦄ ⦃raft : Raft⦄ where
  abbrev pub forget : {A : Type 0} → Result A × raft.Cluster → Result (Unit {0}) × raft.Cluster
  forget (ok a, c) = (ok tt, c)
  forget (err e, c) = (err e, c)

  unfoldable pub discard : {A : Type 0} → Store A → Store (Unit {0})
  discard m c = forget (m c)

  unfoldable pub write : Write → Store (Unit {0})
  unfolding upsert_node update_node_status deregister_node create_network update_network
      delete_network create_nic update_nic update_nic_status delete_nic attach_nic detach_nic
      update_vm_spec create_vm update_vm_status delete_vm create_org update_org create_project
      delete_org delete_project create_cluster update_cluster add_node_to_cluster
      remove_node_from_cluster delete_cluster create_volume resize_volume create_snapshot
      update_volume_status delete_volume create_template update_template_status
      create_security_group update_security_group create_security_group_rule
      delete_security_group_rule update_security_group_rule delete_security_group revoke_node_cert
      redeem_onboarding_token delete_onboarding_token create_onboarding_token
      ensure_account_from_oidc create_account_by_email create_membership
      bootstrap_initial_platform_admin delete_membership create_service_account
      create_static_api_key delete_service_account revoke_static_api_key
  write (Write.upsert_node f x1 x2) = discard (upsert_node f x1 x2)
  write (Write.update_node_status f x1 x2) = discard (update_node_status f x1 x2)
  write (Write.deregister_node f x1) = discard (deregister_node f x1)
  write (Write.create_network f x1) = discard (create_network f x1)
  write (Write.update_network f x1 x2) = discard (update_network f x1 x2)
  write (Write.delete_network f x1 x2) = discard (delete_network f x1 x2)
  write (Write.create_nic f x1) = discard (create_nic f x1)
  write (Write.update_nic f x1 x2) = discard (update_nic f x1 x2)
  write (Write.update_nic_status f x1 x2) = discard (update_nic_status f x1 x2)
  write (Write.delete_nic f x1) = discard (delete_nic f x1)
  write (Write.attach_nic f x1 x2) = discard (attach_nic f x1 x2)
  write (Write.detach_nic f x1) = discard (detach_nic f x1)
  write (Write.update_vm_spec f x1 x2) = discard (update_vm_spec f x1 x2)
  write (Write.create_vm f x1) = discard (create_vm f x1)
  write (Write.update_vm_status f x1 x2) = discard (update_vm_status f x1 x2)
  write (Write.delete_vm f x1) = discard (delete_vm f x1)
  write (Write.create_org f x1) = discard (create_org f x1)
  write (Write.update_org f x1 x2) = discard (update_org f x1 x2)
  write (Write.create_project f x1) = discard (create_project f x1)
  write (Write.delete_org f x1) = discard (delete_org f x1)
  write (Write.delete_project f x1) = discard (delete_project f x1)
  write (Write.create_cluster f x1) = discard (create_cluster f x1)
  write (Write.update_cluster f x1 x2) = discard (update_cluster f x1 x2)
  write (Write.add_node_to_cluster f x1 x2) = discard (add_node_to_cluster f x1 x2)
  write (Write.remove_node_from_cluster f x1 x2) = discard (remove_node_from_cluster f x1 x2)
  write (Write.delete_cluster f x1) = discard (delete_cluster f x1)
  write (Write.create_volume f x1) = discard (create_volume f x1)
  write (Write.resize_volume f x1 x2) = discard (resize_volume f x1 x2)
  write (Write.create_snapshot f x1 x2) = discard (create_snapshot f x1 x2)
  write (Write.update_volume_status f x1 x2) = discard (update_volume_status f x1 x2)
  write (Write.delete_volume f x1) = discard (delete_volume f x1)
  write (Write.create_template f x1) = discard (create_template f x1)
  write (Write.update_template_status f x1 x2) = discard (update_template_status f x1 x2)
  write (Write.create_security_group f x1) = discard (create_security_group f x1)
  write (Write.update_security_group f x1 x2) = discard (update_security_group f x1 x2)
  write (Write.create_security_group_rule f x1 x2) = discard (create_security_group_rule f x1 x2)
  write (Write.delete_security_group_rule f x1 x2) = discard (delete_security_group_rule f x1 x2)
  write (Write.update_security_group_rule f x1 x2 x3) =
      discard (update_security_group_rule f x1 x2 x3)
  write (Write.delete_security_group f x1) = discard (delete_security_group f x1)
  write (Write.revoke_node_cert f x1 x2) = discard (revoke_node_cert f x1 x2)
  write (Write.redeem_onboarding_token crates f x2) = discard (redeem_onboarding_token crates f x2)
  write (Write.delete_onboarding_token f x1 x2) = discard (delete_onboarding_token f x1 x2)
  write (Write.create_onboarding_token crates f x2) = discard (create_onboarding_token crates f x2)
  write (Write.ensure_account_from_oidc f x1) = discard (ensure_account_from_oidc f x1)
  write (Write.create_account_by_email f x1) = discard (create_account_by_email f x1)
  write (Write.create_membership f x1) = discard (create_membership f x1)
  write (Write.bootstrap_initial_platform_admin f x1) =
      discard (bootstrap_initial_platform_admin f x1)
  write (Write.delete_membership f x1) = discard (delete_membership f x1)
  write (Write.create_service_account f x1) = discard (create_service_account f x1)
  write (Write.create_static_api_key f x1) = discard (create_static_api_key f x1)
  write (Write.delete_service_account f x1) = discard (delete_service_account f x1)
  write (Write.revoke_static_api_key f x1) = discard (revoke_static_api_key f x1)
