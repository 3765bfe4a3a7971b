-- ===== src/Invariant/Groups.antt =====
-- mvirt-cplane/src/state.rs: the security groups that NICs name.
use mvirt.Prelude.{
  false, inr, true, opt_eq, ◌∙◌, inl, any, is_some, Bool-cases, sym, Option-cases, String, ◌≡◌,
  refl, Option, none, some, arith,
}
use mvirt.Redb.{Redb}
use mvirt.Redb.Txn.{Table, txn_get, txn_put}
use mvirt.Replica.{Replica}
use mvirt.State.{Tables}
use mvirt.Command.{Command}
use mvirt.Apply.{execute}
use mvirt.Apply.Outcome.{done}
use mvirt.Apply.Ensures.{Ensures, ensures_rules, guard_rules, Ensures-bind}
use mvirt.Redb.Linked.{
  IsLinked, IsLinked-put_target, IsLinked-put_source, IsLinked-delete_source, IsLinked-delete_rows,
  IsLinked-delete_target,
}
use mvirt.Redb.Txn.{txn_list, txn_delete}
use mvirt.Redb.Txn.Laws.{any-txn_get}
use mvirt.Command.Nic.{CreateNic}
use mvirt.Command.Vm.{DeleteVm}
use mvirt.Apply.Vm.{released, put_released}
use mvirt.Apply.Nic.{new_nic, find_security_group, count_up, group_down}
use mvirt.Invariant.Networks.{linked_nic, linked_found}
use mvirt.Resource.Network.{NicData}
use mvirt.Resource.Vm.{VmData}
use mvirt.Resource.SecurityGroup.{SecurityGroupData}
use mvirt.Apply.Onboarding.{apply_redeem_onboarding_token}
use mvirt.Apply.Account.{
  apply_create_account_by_email, apply_ensure_account_from_oidc,
  apply_bootstrap_initial_platform_admin,
}

abbrev pub group_of : NicData → Option String
group_of n = n.spec.security_group_id

module _ ⦃redb : Redb⦄ where
  abbrev pub GroupsLinked : Table SecurityGroupData → Table NicData → Type 0
  GroupsLinked = IsLinked group_of

module _ ⦃redb : Redb⦄ {ts : Table SecurityGroupData} {ns : Table NicData}
    (h : GroupsLinked ts ns) where
  count_up-GroupsLinked : (found : Option SecurityGroupData) → GroupsLinked (count_up ts found) ns
  unfolding count_up
  count_up-GroupsLinked none = h
  count_up-GroupsLinked (some sg) = IsLinked-put_target _ h sg.id _

  group_down-GroupsLinked : (o : Option String) → GroupsLinked (group_down ts o) ns
  unfolding group_down
  group_down-GroupsLinked none = h
  group_down-GroupsLinked (some id) = elim (Option-cases (txn_get ts id)) [
    | inl gone ↦ rw (gone, group_down) h
    | inr (sg, found) ↦ rw (found, group_down) (IsLinked-put_target _ h id _)
  ]

  -- A NIC that keeps its group, written under any key.
  link_nic-GroupsLinked :
      (k i : String) (nic old : NicData)
      → txn_get ns k ≡ some old
      → group_of nic ≡ group_of old
      → GroupsLinked ts (txn_put ns i nic)
  link_nic-GroupsLinked k i nic old found same =
      IsLinked-put_source _ h i nic λ j to. h.at k old j found (sym same ∙ to)

  release_nic-GroupsLinked :
      (c : DeleteVm) (now k : String) (o : Option NicData)
      → ((old : NicData) → o ≡ some old → txn_get ns k ≡ some old)
      → GroupsLinked ts (put_released ns (released o c now))
  unfolding released put_released
  release_nic-GroupsLinked c now k none found = h
  release_nic-GroupsLinked c now k (some old) found =
      elim (Bool-cases (opt_eq old.spec.vm_id (some c.id))) [
        | inl linked ↦
            rw (linked, released, put_released)
              (link_nic-GroupsLinked k old.id _ old (found old refl) refl)
        | inr other ↦ rw (other, released, put_released) h
      ]

module _ ⦃redb : Redb⦄ (db : Tables) (h : GroupsLinked db.security_groups db.nics) where
  -- The group that `find_security_group` lets pass is there.
  found_group :
      (o : Option String) (found : Option SecurityGroupData) (j : String)
      → find_security_group db.security_groups o ≡ done found
      → o ≡ some j
      → is_some (txn_get db.security_groups j) ≡ true
  unfolding find_security_group
  found_group none found j e to = cc
  found_group (some id) found j e to = elim (Option-cases (txn_get db.security_groups id)) [
    | inl gone ↦ ground (arith, e, gone)
    | inr (sg, there) ↦ ground (arith, there, to)
  ]

  new_nic-GroupsLinked :
      (c : CreateNic) (found : Option SecurityGroupData)
      → find_security_group db.security_groups c.security_group_id ≡ done found
      → GroupsLinked (count_up db.security_groups found) (txn_put db.nics c.id (new_nic c))
  unfolding new_nic
  new_nic-GroupsLinked c found e =
      count_up-GroupsLinked
        (IsLinked-put_source _ h c.id (new_nic c)
          λ j to. found_group c.security_group_id found j e to)
        found

  delete_nic-GroupsLinked :
      (k : String) (o : Option String)
      → GroupsLinked (group_down db.security_groups o) (txn_delete db.nics k)
  delete_nic-GroupsLinked k o = group_down-GroupsLinked (IsLinked-delete_source _ h k) o

  delete_group-GroupsLinked :
      (id : String)
      → any (λ n. opt_eq n.spec.security_group_id (some id)) (txn_list db.nics) ≡ false
      → GroupsLinked (txn_delete db.security_groups id) db.nics
  delete_group-GroupsLinked id unused = IsLinked-delete_target _ h id λ k n at_k.
      any-txn_get (λ x. opt_eq x.spec.security_group_id (some id)) db.nics k n unused at_k

  delete_vm-GroupsLinked :
      (now : String) (c : DeleteVm) (vm : VmData)
      → GroupsLinked db.security_groups
          (put_released db.nics (released (linked_nic db vm.spec.nic_id) c now))
  delete_vm-GroupsLinked now c vm =
      release_nic-GroupsLinked h c now vm.spec.nic_id (linked_nic db vm.spec.nic_id)
        (linked_found db vm.spec.nic_id)

module _ ⦃redb : Redb⦄ (replica : Replica) (db : Tables) where
  -- If a command commits and the security group of every NIC that names one was there, it still is.
  pub execute-GroupsLinked :
      (cmd : Command)
      → GroupsLinked db.security_groups db.nics
      → Ensures (λ a. GroupsLinked a.0.security_groups a.0.nics) (execute replica db cmd)
  unfolding execute apply_redeem_onboarding_token apply_create_account_by_email
      apply_ensure_account_from_oidc apply_bootstrap_initial_platform_admin
  execute-GroupsLinked (Command.update_nic c) h =
      search (guard_rules, link_nic-GroupsLinked h) depth 9
  execute-GroupsLinked (Command.attach_nic c) h =
      search (guard_rules, link_nic-GroupsLinked h) depth 9
  execute-GroupsLinked (Command.detach_nic c) h =
      search (guard_rules, link_nic-GroupsLinked h) depth 9
  execute-GroupsLinked (Command.update_nic_status c) h =
      search (guard_rules, link_nic-GroupsLinked h) depth 9
  execute-GroupsLinked (Command.delete_network c) h =
      search (guard_rules, IsLinked-delete_rows _ h) depth 9
  execute-GroupsLinked (Command.create_nic c) h =
      search (guard_rules, Ensures-bind, new_nic-GroupsLinked db h) depth 9
  execute-GroupsLinked (Command.delete_nic c) h =
      search (guard_rules, delete_nic-GroupsLinked db h) depth 9
  execute-GroupsLinked (Command.create_vm c) h =
      search (guard_rules, Ensures-bind, link_nic-GroupsLinked h) depth 9
  execute-GroupsLinked (Command.delete_vm c) h =
      search (guard_rules, delete_vm-GroupsLinked db h) depth 9
  execute-GroupsLinked (Command.create_security_group c) h =
      search (guard_rules, IsLinked-put_target _ h) depth 9
  execute-GroupsLinked (Command.update_security_group c) h =
      search (guard_rules, IsLinked-put_target _ h) depth 9
  execute-GroupsLinked (Command.create_security_group_rule c) h =
      search (guard_rules, IsLinked-put_target _ h) depth 9
  execute-GroupsLinked (Command.delete_security_group_rule c) h =
      search (guard_rules, IsLinked-put_target _ h) depth 9
  execute-GroupsLinked (Command.update_security_group_rule c) h =
      search (guard_rules, IsLinked-put_target _ h) depth 9
  execute-GroupsLinked (Command.delete_security_group c) h =
      search (guard_rules, delete_group-GroupsLinked db h) depth 9
  execute-GroupsLinked _ h = search (ensures_rules, h) depth 12
