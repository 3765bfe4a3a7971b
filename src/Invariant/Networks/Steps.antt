-- ===== src/Invariant/Networks/Steps.antt =====
-- What it means that the networks count their NICs, and the changes of the two tables that keep it.
use mvirt.Prelude.{
  true, opt_eq, eq_iff, false, keep, Bool, Bool-cases, ℕ, suc, ◌<◌, ◌^◌, String, ◌≡◌, ◌∙◌, refl,
  Option, none, some, arith, incr_u32, ◌==◌, Option-cases, inl, inr,
}
use mvirt.Redb.{Redb}
use mvirt.Redb.Txn.{Table, txn_get, txn_list, txn_put, txn_delete, delete_rows}
use mvirt.Redb.Keyed.{IsKeyed, put-IsKeyed, delete-IsKeyed}
use mvirt.Redb.Counted.{IsCounted, refs}
use mvirt.Redb.Counted.Steps.{
  IsCounted-more, IsCounted-new_target, IsCounted-put_target, IsCounted-put_source,
  IsCounted-new_source, IsCounted-delete_source,
}
use mvirt.Redb.Txn.Laws.{txn_get-txn_delete}
use mvirt.Redb.Txn.Rows.{
  count_if-delete_rows, count_if-delete_rows-le, txn_get-delete_rows-keep, names-keep,
}
use mvirt.Resource.Network.{NetworkData, NicData}
use mvirt.Command.Vm.{DeleteVm}
use mvirt.Apply.Nic.{network_down}
use mvirt.Apply.Vm.{released, put_released}

-- The network of a NIC.
abbrev pub network_of : NicData → Option String
network_of n = some n.spec.network_id

abbrev pub nics_of : NetworkData → ℕ
nics_of n = n.nic_count

module _ ⦃redb : Redb⦄ where
  -- NICs stand under their ids, each NIC's network exists, and each network counts its NICs.
  pub record CountsNics (budget : ℕ) (networks : Table NetworkData) (nics : Table NicData)
      : Type 0 where
    pub keyed : IsKeyed (λ n. n.id) nics
    pub counted : IsCounted network_of nics_of budget networks nics

module _ ⦃redb : Redb⦄ (b : ℕ) (ts : Table NetworkData) (ns : Table NicData)
    (h : CountsNics b ts ns) where
  pub CountsNics-more : CountsNics (suc b) ts ns
  CountsNics-more = record { keyed = h.keyed; counted = IsCounted-more _ _ h.counted }

  pub new_network-CountsNics :
      (k : String) (network : NetworkData)
      → txn_get ts k ≡ none
      → nics_of network ≡ 0
      → CountsNics (suc b) (txn_put ts k network) ns
  new_network-CountsNics k network gone start = record {
    keyed = h.keyed;
    counted = IsCounted-more _ _ (IsCounted-new_target _ _ h.counted k network gone start);
  }

  pub put_network-CountsNics :
      (k : String) (network old : NetworkData)
      → txn_get ts k ≡ some old
      → nics_of network ≡ nics_of old
      → CountsNics (suc b) (txn_put ts k network) ns
  put_network-CountsNics k network old found same = record {
    keyed = h.keyed;
    counted = IsCounted-more _ _ (IsCounted-put_target _ _ h.counted k network old found same);
  }

  -- A NIC that keeps its id and its network.
  put_nic :
      (k : String) (nic old : NicData)
      → txn_get ns k ≡ some old
      → nic.id ≡ old.id
      → network_of nic ≡ network_of old
      → CountsNics b ts (txn_put ns k nic)
  put_nic k nic old found same_id same = record {
    keyed = put-IsKeyed _ ns k nic (same_id ∙ h.keyed.at k old found) h.keyed;
    counted = IsCounted-put_source _ _ h.counted k nic old found same;
  }

  pub put_nic-CountsNics :
      (k : String) (nic old : NicData)
      → txn_get ns k ≡ some old
      → nic.id ≡ old.id
      → network_of nic ≡ network_of old
      → CountsNics (suc b) ts (txn_put ns k nic)
  put_nic-CountsNics k nic old found same_id same =
      let kept = put_nic k nic old found same_id same in
      record { keyed = kept.keyed; counted = IsCounted-more _ _ kept.counted }

  -- The same, written under the NIC's own id.
  pub link_nic-CountsNics :
      (k : String) (nic old : NicData)
      → txn_get ns k ≡ some old
      → nic.id ≡ old.id
      → network_of nic ≡ network_of old
      → CountsNics (suc b) ts (txn_put ns old.id nic)
  link_nic-CountsNics k nic old found same_id same =
      rw (h.keyed.at k old found) (put_nic-CountsNics k nic old found same_id same)

  pub new_nic-CountsNics :
      (k : String) (nic : NicData) (j : String) (w u : NetworkData)
      → suc b < 2 ^ 32
      → txn_get ns k ≡ none
      → nic.id ≡ k
      → network_of nic ≡ some j
      → txn_get ts j ≡ some u
      → nics_of w ≡ incr_u32 (nics_of u)
      → CountsNics (suc b) (txn_put ts j w) (txn_put ns k nic)
  new_nic-CountsNics k nic j w u fits gone same_id to old up = record {
    keyed = put-IsKeyed _ ns k nic same_id h.keyed;
    counted = IsCounted-new_source _ _ h.counted k nic j w u gone to old up fits;
  }

  pub delete_nic-CountsNics :
      (k : String) (nic : NicData)
      → txn_get ns k ≡ some nic
      → CountsNics (suc b) (network_down ts nic.spec.network_id) (txn_delete ns k)
  unfolding network_down
  delete_nic-CountsNics k nic there =
      let j = nic.spec.network_id in
      elim (Option-cases (txn_get ts j)) [
        | inl gone ↦ absurd (ground (arith, h.counted.linked k nic j there refl))
        | inr (u, found) ↦
            rw (found, network_down)
              (record {
                keyed = delete-IsKeyed _ ns k h.keyed;
                counted =
                    IsCounted-more _ _
                      (IsCounted-delete_source _ _ h.counted k nic j _ u there refl found refl);
              })
      ]

  -- The NIC that a deleted VM releases.
  pub release_nic-CountsNics :
      (c : DeleteVm) (now k : String) (o : Option NicData)
      → ((old : NicData) → o ≡ some old → txn_get ns k ≡ some old)
      → CountsNics (suc b) ts (put_released ns (released o c now))
  unfolding released put_released
  release_nic-CountsNics c now k none found = CountsNics-more
  release_nic-CountsNics c now k (some old) found =
      elim (Bool-cases (opt_eq old.spec.vm_id (some c.id))) [
        | inl linked ↦
            rw (linked, released, put_released)
              (link_nic-CountsNics k _ old (found old refl) refl refl)
        | inr other ↦ rw (other, released, put_released) CountsNics-more
      ]

  -- A network goes with all its NICs.
  module _ (id : String) where
    abbrev in_network : NicData → Bool
    in_network n = n.spec.network_id == id

    abbrev rest : Table NicData
    rest = delete_rows (λ n. n.id) ns (keep in_network (txn_list ns))

    rest_row :
        (k : String) (n : NicData)
        → txn_get rest k ≡ some n
        → (txn_get ns k ≡ some n) × (in_network n ≡ false)
    rest_row k n at_k = ground (arith, txn_get-delete_rows-keep (λ x. x.id) ns h.keyed in_network k)

    refs-rest : (j : String) → (id == j) ≡ false → refs network_of rest j ≡ refs network_of ns j
    refs-rest j other =
        count_if-delete_rows (λ x. x.id) _ ns (keep in_network (txn_list ns))
          λ k v at_k named. ground (
            arith,
            names-keep (λ x. x.id) ns h.keyed in_network k v at_k,
            eq_iff v.spec.network_id id,
          )

    pub delete_network-CountsNics : CountsNics (suc b) (txn_delete ts id) rest
    delete_network-CountsNics = record {
      keyed = record { at = λ k n at_k. h.keyed.at k n (rest_row k n at_k).0 };
      counted = record {
        linked = λ k n j at_k to. ground (
          arith,
          rest_row k n at_k,
          h.counted.linked k n j,
          txn_get-txn_delete ts id j,
          eq_iff id j,
          eq_iff n.spec.network_id id,
        );
        counted = λ j w at_j.
            ground (arith, txn_get-txn_delete ts id j, h.counted.counted j w, refs-rest j);
        bounded = omega (
          arith,
          h.counted.bounded,
          count_if-delete_rows-le (λ x. x.id) (λ _. true) ns (keep in_network (txn_list ns)),
        );
      };
    }
