-- ===== src/Apply/Nic.antt =====
-- mvirt-cplane/src/state.rs: the handlers of the NIC commands.
use mvirt.Prelude.{
  String, ◌<>◌, Option, none, some, [], ◌∷◌, ◌==◌, is_some, unwrap_or, not, incr_u32, decr_u32,
  if◌then◌else◌,
}
use mvirt.Redb.{Redb}
use mvirt.Redb.Txn.{Table, txn_get, txn_has, txn_put, txn_delete}
use mvirt.Resource.Network.{NetworkData, NicData, NicPhase}
use mvirt.Resource.SecurityGroup.{SecurityGroupData}
use mvirt.Command.Nic.{CreateNic, UpdateNic, DeleteNic, AttachNic, DetachNic, UpdateNicStatus}
use mvirt.Response.{Response, Event}
use mvirt.State.{Tables}
use mvirt.Apply.Outcome.{Outcome, Handler, done, ◌>>=◌, ◌>>◌, return_if, some_or, return_existing}
use mvirt.Apply.Network.{network_not_found}
use mvirt.Apply.Mac.{generate_mac_from_id}

abbrev pub nic_not_found : String → Response
nic_not_found id = Response.error 404 ("NIC '" <> id <> "' not found")

abbrev pub security_group_not_found : String → Response
security_group_not_found id = Response.error 404 ("Security group '" <> id <> "' not found")

unfoldable pub new_nic : CreateNic → NicData
new_nic c = record {
  id = c.id;
  spec = record {
    project_slug = c.project_slug;
    name = c.name;
    network_id = c.network_id;
    mac_address = unwrap_or c.mac_address (generate_mac_from_id c.id);
    ipv4_address = c.ipv4_address;
    ipv6_address = c.ipv6_address;
    routed_ipv4_prefixes = c.routed_ipv4_prefixes;
    routed_ipv6_prefixes = c.routed_ipv6_prefixes;
    security_group_id = c.security_group_id;
    vm_id = none;
  };
  status = record { phase = NicPhase.pending; socket_path = ""; message = none };
  created_at = c.timestamp;
  updated_at = c.timestamp;
}

module _ ⦃redb : Redb⦄ where
  -- The security group that a new NIC counts towards.
  unfoldable pub find_security_group :
      Table SecurityGroupData → Option String → Outcome (Option SecurityGroupData)
  find_security_group t none = done none
  find_security_group t (some id) = do
    sg ← some_or (txn_get t id) (security_group_not_found id)
    done (some sg)

  unfoldable pub count_up :
      Table SecurityGroupData → Option SecurityGroupData → Table SecurityGroupData
  count_up t none = t
  count_up t (some sg) = txn_put t sg.id (record sg { nic_count = incr_u32 sg.nic_count })

  unfoldable pub network_down : Table NetworkData → String → Table NetworkData
  network_down t id = elim (txn_get t id) [
    | none ↦ t
    | some network ↦ txn_put t id (record network { nic_count = decr_u32 network.nic_count })
  ]

  unfoldable pub group_down : Table SecurityGroupData → Option String → Table SecurityGroupData
  group_down t none = t
  group_down t (some id) = elim (txn_get t id) [
    | none ↦ t
    | some sg ↦ txn_put t id (record sg { nic_count = decr_u32 sg.nic_count })
  ]

module _ ⦃redb : Redb⦄ (db : Tables) where
  unfoldable pub apply_create_nic : CreateNic → Handler
  apply_create_nic c = do
    network ← some_or (txn_get db.networks c.network_id) (network_not_found c.network_id)
    sg_to_update ← find_security_group db.security_groups c.security_group_id
    return_existing (txn_get db.nics c.id) Response.nic
    let nic = new_nic c
    let counted = record network { nic_count = incr_u32 network.nic_count }
    done (
      record db {
        nics = txn_put db.nics c.id nic;
        networks = txn_put db.networks c.network_id counted;
        security_groups = count_up db.security_groups sg_to_update;
      },
      Response.nic nic,
      Event.nic_created nic ∷ [],
    )

  unfoldable pub apply_update_nic : UpdateNic → Handler
  apply_update_nic c = do
    old_nic ← some_or (txn_get db.nics c.id) (nic_not_found c.id)
    let new_nic = record old_nic {
      spec = record old_nic.spec {
        routed_ipv4_prefixes = c.routed_ipv4_prefixes;
        routed_ipv6_prefixes = c.routed_ipv6_prefixes;
      };
      updated_at = c.timestamp;
    }
    done (
      record db { nics = txn_put db.nics c.id new_nic },
      Response.nic new_nic,
      Event.nic_updated c.id old_nic new_nic ∷ [],
    )

  unfoldable pub apply_delete_nic : DeleteNic → Handler
  apply_delete_nic c = do
    nic ← some_or (txn_get db.nics c.id) (nic_not_found c.id)
    done (
      record db {
        nics = txn_delete db.nics c.id;
        networks = network_down db.networks nic.spec.network_id;
        security_groups = group_down db.security_groups nic.spec.security_group_id;
      },
      Response.deleted c.id,
      Event.nic_deleted c.id nic.spec.network_id ∷ [],
    )

  unfoldable pub apply_attach_nic : AttachNic → Handler
  apply_attach_nic c = do
    old_nic ← some_or (txn_get db.nics c.id) (nic_not_found c.id)
    return_if (is_some old_nic.spec.vm_id)
        (Response.error 409 ("NIC '" <> c.id <> "' is already attached to a VM"))
    return_if (not (txn_has db.vms c.vm_id))
        (Response.error 404 ("VM '" <> c.vm_id <> "' not found"))
    let new_nic = record old_nic {
      spec = record old_nic.spec { vm_id = some c.vm_id };
      updated_at = c.timestamp;
    }
    done (
      record db { nics = txn_put db.nics c.id new_nic },
      Response.nic new_nic,
      Event.nic_updated c.id old_nic new_nic ∷ [],
    )

  unfoldable pub apply_detach_nic : DetachNic → Handler
  apply_detach_nic c = do
    old_nic ← some_or (txn_get db.nics c.id) (nic_not_found c.id)
    let new_nic = record old_nic {
      spec = record old_nic.spec { vm_id = none };
      updated_at = c.timestamp;
    }
    done (
      record db { nics = txn_put db.nics c.id new_nic },
      Response.nic new_nic,
      Event.nic_updated c.id old_nic new_nic ∷ [],
    )

  unfoldable pub apply_update_nic_status : UpdateNicStatus → Handler
  apply_update_nic_status c = do
    old_nic ← some_or (txn_get db.nics c.id) (nic_not_found c.id)
    let nic = record old_nic {
      status = record {
        phase = c.phase;
        socket_path = if c.socket_path == "" then old_nic.status.socket_path else c.socket_path;
        message = c.message;
      };
      updated_at = c.timestamp;
    }
    done (record db { nics = txn_put db.nics c.id nic }, Response.nic nic, [])
