-- ===== src/Invariant/Networks.antt =====
-- The NIC counters of the networks, over all commands.
mod Steps
pub use Steps.{CountsNics, CountsNics-more, network_of, nics_of}
use mvirt.Prelude.{
  ◌==◌, incr_u32, if◌then◌else◌, ℕ, suc, ◌<◌, ◌^◌, String, ◌≡◌, refl, Option, none, some, arith,
  List, Bool, Bool-cases, inl, inr,
}
use mvirt.Redb.{Redb}
use mvirt.Redb.Txn.{Table, txn_get, txn_put}
use mvirt.Resource.Network.{NetworkData, NicData}
use mvirt.Resource.Vm.{VmData}
use mvirt.Response.{Response, Event}
use mvirt.Replica.{Replica}
use mvirt.State.{Tables}
use mvirt.Command
use mvirt.Command.{Command}
use mvirt.Command.Vm.{DeleteVm}
use mvirt.Command.Nic.{CreateNic}
use mvirt.Apply.{execute}
use mvirt.Apply.Outcome.{Outcome, done, returned}
use mvirt.Apply.Ensures.{Ensures, ensures_rules, guard_rules, Ensures-bind}
use mvirt.Apply.Vm.{released, put_released}
use mvirt.Apply.Nic.{new_nic}
use Steps.{
  new_network-CountsNics, put_network-CountsNics, put_nic-CountsNics, link_nic-CountsNics,
  new_nic-CountsNics, delete_nic-CountsNics, release_nic-CountsNics, delete_network-CountsNics,
}
use mvirt.Apply.Node.{apply_register_node, apply_update_node_status, apply_deregister_node}
use mvirt.Apply.Network.{apply_create_network, apply_update_network, apply_delete_network}
use mvirt.Apply.Nic.{
  apply_create_nic, apply_update_nic, apply_delete_nic, apply_attach_nic, apply_detach_nic,
  apply_update_nic_status,
}
use mvirt.Apply.Vm.{apply_create_vm, apply_update_vm_spec, apply_update_vm_status, apply_delete_vm}
use mvirt.Apply.Org.{
  apply_create_org, apply_update_org, apply_delete_org, apply_create_project, apply_delete_project,
}
use mvirt.Apply.Cluster.{
  apply_create_cluster, apply_update_cluster, apply_delete_cluster, apply_add_node_to_cluster,
  apply_remove_node_from_cluster,
}
use mvirt.Apply.Onboarding.{
  apply_ensure_internal_ca, apply_update_server_cert, apply_create_onboarding_token,
  apply_delete_onboarding_token, apply_redeem_onboarding_token, apply_revoke_node_cert,
}
use mvirt.Apply.Account.{
  apply_create_account_by_email, apply_ensure_account_from_oidc, apply_create_membership,
  apply_delete_membership, apply_bootstrap_initial_platform_admin, apply_create_service_account,
  apply_delete_service_account, apply_create_static_api_key, apply_revoke_static_api_key,
}
use mvirt.Apply.Volume.{
  apply_create_volume, apply_delete_volume, apply_update_volume_status, apply_resize_volume,
  apply_create_snapshot,
}
use mvirt.Apply.Template.{apply_create_template, apply_update_template_status}
use mvirt.Apply.SecurityGroup.{
  apply_create_security_group, apply_update_security_group, apply_delete_security_group,
  apply_create_security_group_rule, apply_delete_security_group_rule,
  apply_update_security_group_rule,
}

module _ ⦃redb : Redb⦄ (db : Tables) where
  -- The NIC that `DeleteVm` looks up.
  abbrev pub linked_nic : String → Option NicData
  linked_nic id = if id == "" then none else txn_get db.nics id

  pub linked_found :
      (id : String) (old : NicData) → linked_nic id ≡ some old → txn_get db.nics id ≡ some old
  linked_found id old e = ground (arith, e)

module _ ⦃redb : Redb⦄ (replica : Replica) (b : ℕ) (db : Tables) where
  abbrev Keeps : Tables × Response × List Event → Type 0
  Keeps a = CountsNics (suc b) a.0.networks a.0.nics

  delete_vm-CountsNics :
      (c : DeleteVm) (vm : VmData)
      → CountsNics b db.networks db.nics
      → CountsNics
          (suc b)
          db.networks
          (put_released db.nics (released (linked_nic db vm.spec.nic_id) c replica.now))
  delete_vm-CountsNics c vm h =
      release_nic-CountsNics b db.networks db.nics h c replica.now vm.spec.nic_id
        (linked_nic db vm.spec.nic_id) (linked_found db vm.spec.nic_id)

  create_nic-CountsNics :
      (c : CreateNic) (u : NetworkData)
      → suc b < 2 ^ 32
      → CountsNics b db.networks db.nics
      → txn_get db.nics c.id ≡ none
      → txn_get db.networks c.network_id ≡ some u
      → CountsNics
          (suc b)
          (txn_put db.networks c.network_id (record u { nic_count = incr_u32 u.nic_count }))
          (txn_put db.nics c.id (new_nic c))
  unfolding new_nic
  create_nic-CountsNics c u fits h gone found =
      new_nic-CountsNics b db.networks db.nics h c.id _ c.network_id _ u fits gone refl refl found
        refl

  -- If a command commits, NICs stand under their ids, every NIC's network exists, and each network
  -- counts its NICs, as they did before, as long as there are fewer than 2^32 NICs.
  pub execute-CountsNics :
      (cmd : Command)
      → suc b < 2 ^ 32
      → CountsNics b db.networks db.nics
      → Ensures Keeps (execute replica db cmd)
  unfolding execute apply_redeem_onboarding_token apply_create_account_by_email
      apply_ensure_account_from_oidc apply_bootstrap_initial_platform_admin
  execute-CountsNics (Command.create_network c) fits h =
      search (guard_rules, new_network-CountsNics b db.networks db.nics h) depth 8
  execute-CountsNics (Command.update_network c) fits h =
      search (guard_rules, put_network-CountsNics b db.networks db.nics h) depth 8
  execute-CountsNics (Command.delete_network c) fits h =
      search (guard_rules, delete_network-CountsNics b db.networks db.nics h) depth 8
  execute-CountsNics (Command.create_nic c) fits h =
      search (guard_rules, Ensures-bind, create_nic-CountsNics) depth 8
  execute-CountsNics (Command.update_nic c) fits h =
      search (guard_rules, put_nic-CountsNics b db.networks db.nics h) depth 8
  execute-CountsNics (Command.delete_nic c) fits h =
      search (guard_rules, delete_nic-CountsNics b db.networks db.nics h) depth 8
  execute-CountsNics (Command.attach_nic c) fits h =
      search (guard_rules, put_nic-CountsNics b db.networks db.nics h) depth 8
  execute-CountsNics (Command.detach_nic c) fits h =
      search (guard_rules, put_nic-CountsNics b db.networks db.nics h) depth 8
  execute-CountsNics (Command.update_nic_status c) fits h =
      search (guard_rules, put_nic-CountsNics b db.networks db.nics h) depth 8
  execute-CountsNics (Command.create_vm c) fits h =
      search (guard_rules, Ensures-bind, link_nic-CountsNics b db.networks db.nics h) depth 8
  execute-CountsNics (Command.delete_vm c) fits h =
      search (guard_rules, delete_vm-CountsNics) depth 8
  execute-CountsNics _ fits h =
      search (ensures_rules, CountsNics-more b db.networks db.nics h) depth 12
