-- ===== src/Invariant/Names.antt =====
-- mvirt-cplane/src/state.rs: the names of networks, virtual machines and volumes in their projects.
use mvirt.Prelude.{String, refl, Option-cases, inl, inr}
use mvirt.Redb.{Redb}
use mvirt.Redb.Txn.{Table, txn_get}
use mvirt.Replica.{Replica}
use mvirt.State.{Tables}
use mvirt.Command.{Command}
use mvirt.Apply.{execute}
use mvirt.Apply.Ensures.{Ensures, ensures_rules, guard_rules, Ensures-bind}
use mvirt.Redb.Unique.{
  HasUniqueNames, HasUniqueNames-new, HasUniqueNames-change, HasUniqueNames-delete,
}
use mvirt.Resource.Network.{NetworkData}
use mvirt.Resource.Vm.{VmData}
use mvirt.Resource.Storage.{VolumeData}
use mvirt.Apply.Nic.{network_down}
use mvirt.Apply.Onboarding.{apply_redeem_onboarding_token}
use mvirt.Apply.Account.{
  apply_create_account_by_email, apply_ensure_account_from_oidc,
  apply_bootstrap_initial_platform_admin,
}

module _ ⦃redb : Redb⦄ where
  abbrev pub UniqueNetworks : Table NetworkData → Type 0
  UniqueNetworks = HasUniqueNames (λ n. n.project_slug) (λ n. n.name)

  abbrev pub UniqueVms : Table VmData → Type 0
  UniqueVms = HasUniqueNames (λ v. v.spec.project_slug) (λ v. v.spec.name)

  abbrev pub UniqueVolumes : Table VolumeData → Type 0
  UniqueVolumes = HasUniqueNames (λ v. v.spec.project_slug) (λ v. v.spec.name)

  network_down-UniqueNetworks :
      (t : Table NetworkData) (id : String) → UniqueNetworks t → UniqueNetworks (network_down t id)
  unfolding network_down
  network_down-UniqueNetworks t id h = elim (Option-cases (txn_get t id)) [
    | inl gone ↦ rw (gone, network_down) h
    | inr (network, found) ↦
        rw (found, network_down) (HasUniqueNames-change _ _ h id _ network found refl refl)
  ]

module _ ⦃redb : Redb⦄ (replica : Replica) (db : Tables) where
  -- If a command commits and the networks of each project had different names, they still have.
  pub execute-UniqueNetworks :
      (cmd : Command)
      → UniqueNetworks db.networks
      → Ensures (λ a. UniqueNetworks a.0.networks) (execute replica db cmd)
  unfolding execute apply_redeem_onboarding_token apply_create_account_by_email
      apply_ensure_account_from_oidc apply_bootstrap_initial_platform_admin
  execute-UniqueNetworks (Command.create_network c) h =
      search (guard_rules, Ensures-bind, HasUniqueNames-new _ _ h) depth 9
  execute-UniqueNetworks (Command.update_network c) h =
      search (guard_rules, Ensures-bind, HasUniqueNames-change _ _ h) depth 9
  execute-UniqueNetworks (Command.create_nic c) h =
      search (guard_rules, Ensures-bind, HasUniqueNames-change _ _ h) depth 9
  execute-UniqueNetworks (Command.delete_nic c) h =
      search (guard_rules, network_down-UniqueNetworks) depth 9
  execute-UniqueNetworks (Command.delete_network c) h =
      search (guard_rules, Ensures-bind, HasUniqueNames-delete _ _ h) depth 9
  execute-UniqueNetworks _ h = search (ensures_rules, h) depth 12

  -- If a command commits and the VMs of each project had different names, they still have.
  pub execute-UniqueVms :
      (cmd : Command) → UniqueVms db.vms → Ensures (λ a. UniqueVms a.0.vms) (execute replica db cmd)
  unfolding execute apply_redeem_onboarding_token apply_create_account_by_email
      apply_ensure_account_from_oidc apply_bootstrap_initial_platform_admin
  execute-UniqueVms (Command.create_vm c) h =
      search (guard_rules, Ensures-bind, HasUniqueNames-new _ _ h) depth 9
  execute-UniqueVms (Command.update_vm_spec c) h =
      search (guard_rules, Ensures-bind, HasUniqueNames-change _ _ h) depth 9
  execute-UniqueVms (Command.update_vm_status c) h =
      search (guard_rules, Ensures-bind, HasUniqueNames-change _ _ h) depth 9
  execute-UniqueVms (Command.delete_vm c) h =
      search (guard_rules, Ensures-bind, HasUniqueNames-delete _ _ h) depth 9
  execute-UniqueVms _ h = search (ensures_rules, h) depth 12

  -- If a command commits and the volumes of each project had different names, they still have.
  pub execute-UniqueVolumes :
      (cmd : Command)
      → UniqueVolumes db.volumes
      → Ensures (λ a. UniqueVolumes a.0.volumes) (execute replica db cmd)
  unfolding execute apply_redeem_onboarding_token apply_create_account_by_email
      apply_ensure_account_from_oidc apply_bootstrap_initial_platform_admin
  execute-UniqueVolumes (Command.create_volume c) h =
      search (guard_rules, Ensures-bind, HasUniqueNames-new _ _ h) depth 9
  execute-UniqueVolumes (Command.update_volume_status c) h =
      search (guard_rules, Ensures-bind, HasUniqueNames-change _ _ h) depth 9
  execute-UniqueVolumes (Command.resize_volume c) h =
      search (guard_rules, Ensures-bind, HasUniqueNames-change _ _ h) depth 9
  execute-UniqueVolumes (Command.create_snapshot c) h =
      search (guard_rules, Ensures-bind, HasUniqueNames-change _ _ h) depth 9
  execute-UniqueVolumes (Command.delete_volume c) h =
      search (guard_rules, Ensures-bind, HasUniqueNames-delete _ _ h) depth 9
  execute-UniqueVolumes _ h = search (ensures_rules, h) depth 12

  -- If a command commits and the networks, the VMs and the volumes of each project had different
  -- names among themselves, they still have.
  pub execute-UniqueNames :
      (cmd : Command)
      → UniqueNetworks db.networks
      → UniqueVms db.vms
      → UniqueVolumes db.volumes
      → Ensures
          (λ a. UniqueNetworks a.0.networks × UniqueVms a.0.vms × UniqueVolumes a.0.volumes)
          (execute replica db cmd)
  execute-UniqueNames cmd networks vms volumes = record {
    at = λ a e. (
      (execute-UniqueNetworks cmd networks).at a e,
      (execute-UniqueVms cmd vms).at a e,
      (execute-UniqueVolumes cmd volumes).at a e,
    );
  }
