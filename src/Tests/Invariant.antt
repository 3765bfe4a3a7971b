-- ===== src/Tests/Invariant.antt =====
-- The invariants on the small control plane.
use mvirt.Prelude.{suc, ◌<◌, ◌^◌, length, arith}
use mvirt.State.{with_db}
use mvirt.Apply.{execute}
use mvirt.Apply.Ensures.{Ensures}
use mvirt.Apply.Run.{run}
use mvirt.Invariant.Reach.{IsConsistent, run-IsConsistent}
use mvirt.Invariant.Networks.{CountsNics, execute-CountsNics}
use mvirt.Invariant.Templates.{CountsClones, execute-CountsClones}
use mvirt.Invariant.Names.{UniqueNetworks, UniqueVms, UniqueVolumes, execute-UniqueNames}
use mvirt.Invariant.Links.{
  ProjectsLinked, MembershipsOwned, KeysOwned, execute-ProjectsLinked, execute-MembershipsOwned,
  execute-KeysOwned,
}
use mvirt.Invariant.Groups.{GroupsLinked, execute-GroupsLinked}
use mvirt.Tests.Sample.{
  test_redb, test_lru, replica, history, populated, create_nic, create_vm, create_volume,
  delete_org, create_key, create_membership, delete_vm,
}

fits : suc (length history) < 2 ^ 32
fits = omega arith

run-IsConsistent_example : IsConsistent (length history) (run with_db history).db
run-IsConsistent_example = run-IsConsistent history (omega (arith, fits))

execute-CountsNics_example :
    Ensures
      (λ a. CountsNics (suc (length history)) a.0.networks a.0.nics)
      (execute replica populated.db (create_nic "r20" "nic3"))
execute-CountsNics_example =
    execute-CountsNics replica (length history) populated.db (create_nic "r20" "nic3") fits
      run-IsConsistent_example.counts_nics

execute-CountsClones_example :
    Ensures
      (λ a. CountsClones (suc (length history)) a.0.templates a.0.volumes)
      (execute replica populated.db create_volume)
execute-CountsClones_example =
    execute-CountsClones replica (length history) populated.db create_volume fits
      run-IsConsistent_example.counts_clones

execute-UniqueNames_example :
    Ensures
      (λ a. UniqueNetworks a.0.networks × UniqueVms a.0.vms × UniqueVolumes a.0.volumes)
      (execute replica populated.db create_vm)
execute-UniqueNames_example =
    execute-UniqueNames replica populated.db create_vm run-IsConsistent_example.unique_networks
      run-IsConsistent_example.unique_vms run-IsConsistent_example.unique_volumes

execute-ProjectsLinked_example :
    Ensures (λ a. ProjectsLinked a.0.orgs a.0.projects) (execute replica populated.db delete_org)
execute-ProjectsLinked_example =
    execute-ProjectsLinked replica populated.db delete_org run-IsConsistent_example.projects_linked

execute-GroupsLinked_example :
    Ensures
      (λ a. GroupsLinked a.0.security_groups a.0.nics)
      (execute replica populated.db delete_vm)
execute-GroupsLinked_example =
    execute-GroupsLinked replica populated.db delete_vm run-IsConsistent_example.groups_linked

execute-MembershipsOwned_example :
    Ensures
      (λ a. MembershipsOwned a.0.accounts a.0.memberships)
      (execute replica populated.db create_membership)
execute-MembershipsOwned_example =
    execute-MembershipsOwned replica populated.db create_membership
      run-IsConsistent_example.memberships_owned

execute-KeysOwned_example :
    Ensures (λ a. KeysOwned a.0.accounts a.0.api_keys) (execute replica populated.db create_key)
execute-KeysOwned_example =
    execute-KeysOwned replica populated.db create_key run-IsConsistent_example.keys_owned
