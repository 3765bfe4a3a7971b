-- ===== src/Effect/Vm.antt =====
-- mvirt-cplane/src/state.rs: the creation and the deletion of a VM, and its NIC.
use mvirt.Prelude.{
  String, ◌≡◌, refl, sym, ap, ◌≢◌, ◌∙◌, true, false, none, some, arith, eq_iff, any, opt_eq,
  opt_eq_iff, ◌==◌, ◌&&◌,
}
use mvirt.Redb.{Redb}
use mvirt.Redb.Keyed.{IsKeyed}
use mvirt.Redb.Txn.{txn_get, txn_list, txn_put, txn_delete}
use mvirt.Redb.Txn.Laws.{txn_get-txn_put, txn_get-txn_put_self, txn_get-txn_delete}
use mvirt.Resource.Network.{NicData}
use mvirt.Resource.Vm.{VmData}
use mvirt.Command.Vm.{CreateVm, DeleteVm}
use mvirt.State.{Tables}
use mvirt.Apply.Outcome.{◌>>=◌}
use mvirt.Apply.Ensures.{
  Commits, Commits-weaken, Commits-bind, Commits-some_or, Commits-done, Commits-return_if,
  Commits-return_existing,
}
use mvirt.Apply.Vm.{apply_create_vm, apply_delete_vm, new_vm, check_nic, released, put_released}

-- What a new VM makes of its NIC.
abbrev pinned : CreateVm → NicData → NicData
pinned c nic = record nic { spec = record nic.spec { vm_id = some c.id }; updated_at = c.timestamp }

-- What the deletion makes of the NIC.
abbrev freed : String → NicData → NicData
freed now nic = record nic { spec = record nic.spec { vm_id = none }; updated_at = now }

module _ ⦃redb : Redb⦄ (db : Tables) where
  -- Creating a VM under a free id and a free name, on a NIC that no VM holds, commits: the VM is
  -- there and its NIC is pinned to it.
  pub create_vm_lem :
      (c : CreateVm) (nic : NicData)
      → any
          (λ v. v.spec.project_slug == c.spec.project_slug && v.spec.name == c.spec.name)
          (txn_list db.vms)
        ≡ false
      → txn_get db.vms c.id ≡ none
      → txn_get db.nics c.spec.nic_id ≡ some nic
      → nic.spec.vm_id ≡ none
      → Commits
          (λ a.
            (a.0.vms ≡ txn_put db.vms c.id (new_vm c))
            × (a.0.nics ≡ txn_put db.nics nic.id (pinned c nic)))
          (apply_create_vm db c)
  unfolding apply_create_vm check_nic
  create_vm_lem c nic fresh absent there free = Commits-return_if _ _ _ fresh (
      Commits-return_existing _ _ _ absent
        (Commits-some_or _ _ _ nic there (rw (free, check_nic) (Commits-done _ (refl, refl)))))

  -- Deleting a VM that holds its NIC commits: the VM is gone and its NIC is free.
  pub delete_vm_lem :
      (now : String) (c : DeleteVm) (vm : VmData) (nic : NicData)
      → txn_get db.vms c.id ≡ some vm
      → (vm.spec.nic_id == "") ≡ false
      → txn_get db.nics vm.spec.nic_id ≡ some nic
      → nic.spec.vm_id ≡ some c.id
      → Commits
          (λ a.
            (a.0.vms ≡ txn_delete db.vms c.id)
            × (a.0.nics ≡ txn_put db.nics nic.id (freed now nic)))
          (apply_delete_vm db now c)
  unfolding apply_delete_vm released put_released
  delete_vm_lem now c vm nic there named held pinned_to =
      let mine : opt_eq nic.spec.vm_id (some c.id) ≡ true =
        ground (arith, opt_eq_iff nic.spec.vm_id (some c.id)) in
      Commits-some_or _ _ _ vm there
        (Commits-done _ (refl, rw (named, held, mine, released, put_released) refl))

  rows :
      (a x : Tables) (c : CreateVm) (d : DeleteVm)
      → a.vms ≡ txn_put db.vms c.id (new_vm c)
      → x.vms ≡ txn_delete a.vms d.id
      → d.id ≡ c.id
      → txn_get db.vms c.id ≡ none
      → (j : String) → txn_get x.vms j ≡ txn_get db.vms j
  rows a x c d made unmade same absent j =
      rw (unmade, made, same)
        (ground (
          arith,
          txn_get-txn_delete (txn_put db.vms c.id (new_vm c)) c.id j,
          txn_get-txn_put db.vms c.id j (new_vm c),
          eq_iff c.id j,
          absent,
        ))

  freed_row :
      (a x : Tables) (c : CreateVm) (now : String) (nic : NicData)
      → a.nics ≡ txn_put db.nics nic.id (pinned c nic)
      → x.nics ≡ txn_put a.nics nic.id (freed now (pinned c nic))
      → nic.id ≡ c.spec.nic_id
      → nic.spec.vm_id ≡ none
      → txn_get x.nics c.spec.nic_id ≡ some (record nic { updated_at = now })
  freed_row a x c now nic made unmade same free = rw unmade (
      txn_get-txn_put_self a.nics nic.id c.spec.nic_id (freed now (pinned c nic)) same
      ∙ ground (arith, free))

module _ ⦃redb : Redb⦄ (db : Tables) where
  -- Creating a VM and deleting it again leaves every row of the VMs as it was, and the NIC, but
  -- for its time of change, provided that the VM's name and id are new, that it names a NIC that
  -- no VM holds, and that NICs stand under their ids.
  pub create_vm-delete_vm :
      (now : String) (c : CreateVm) (d : DeleteVm) (nic : NicData)
      → IsKeyed (λ n. n.id) db.nics
      → any
          (λ v. v.spec.project_slug == c.spec.project_slug && v.spec.name == c.spec.name)
          (txn_list db.vms)
        ≡ false
      → txn_get db.vms c.id ≡ none
      → (c.spec.nic_id == "") ≡ false
      → txn_get db.nics c.spec.nic_id ≡ some nic
      → nic.spec.vm_id ≡ none
      → d.id ≡ c.id
      → Commits
          (λ a.
            ((j : String) → txn_get a.0.vms j ≡ txn_get db.vms j)
            × (txn_get a.0.nics c.spec.nic_id ≡ some (record nic { updated_at = now })))
          (apply_create_vm db c >>= λ a. apply_delete_vm a.0 now d)
  create_vm-delete_vm now c d nic keyed fresh absent named there free same =
      Commits-bind (apply_create_vm db c) (λ a. apply_delete_vm a.0 now d)
        (create_vm_lem db c nic fresh absent there free)
        λ a made.
          let nic_there : txn_get a.0.nics c.spec.nic_id ≡ some (pinned c nic) = rw made.1 (
            txn_get-txn_put_self db.nics nic.id c.spec.nic_id (pinned c nic)
              (keyed.at c.spec.nic_id nic there)) in
          let vm_there : txn_get a.0.vms d.id ≡ some (new_vm c) =
            rw made.0 (txn_get-txn_put_self db.vms c.id d.id (new_vm c) (sym same)) in
          let held : some c.id ≡ some d.id = ground (arith, same) in
          Commits-weaken (apply_delete_vm a.0 now d)
            (delete_vm_lem a.0 now d (new_vm c) (pinned c nic) vm_there named nic_there held)
            λ x unmade. (
              rows db a.0 x.0 c d made.0 unmade.0 same absent,
              freed_row db a.0 x.0 c now nic made.1 unmade.1 (keyed.at c.spec.nic_id nic there)
                  free,
            )

  -- A VM's deletion is not the same on every replica: where it frees a NIC, two replicas whose
  -- clocks differ both commit, and leave different rows for the NIC.
  pub delete_vm_diverges :
      (now later : String) (c : DeleteVm) (vm : VmData) (nic : NicData)
      → txn_get db.vms c.id ≡ some vm
      → (vm.spec.nic_id == "") ≡ false
      → txn_get db.nics vm.spec.nic_id ≡ some nic
      → nic.spec.vm_id ≡ some c.id
      → now ≢ later
      → Commits
          (λ a.
            Commits
              (λ x. txn_get a.0.nics nic.id ≢ txn_get x.0.nics nic.id)
              (apply_delete_vm db later c))
          (apply_delete_vm db now c)
  delete_vm_diverges now later c vm nic there named held pinned_to differ =
      Commits-weaken (apply_delete_vm db now c)
        (delete_vm_lem db now c vm nic there named held pinned_to)
        λ a left.
          Commits-weaken (apply_delete_vm db later c)
            (delete_vm_lem db later c vm nic there named held pinned_to)
            λ x right same.
              let row : some (freed now nic) ≡ some (freed later nic) =
                sym (txn_get-txn_put_self db.nics nic.id nic.id (freed now nic) refl)
                ∙ ap (λ t. txn_get t nic.id) (sym left.1)
                ∙ same
                ∙ ap (λ t. txn_get t nic.id) right.1
                ∙ txn_get-txn_put_self db.nics nic.id nic.id (freed later nic) refl in
              differ (ap (λ o. elim o [ none ↦ now | some n ↦ n.updated_at ]) row)
