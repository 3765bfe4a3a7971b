-- ===== src/Tests/Sample.antt =====
-- Commands that fill a small control plane: an organization with a project and a cluster, a node
-- that joins by a token, a network with a NIC and a VM, a template with a clone, two accounts.
use mvirt.Prelude.{String, none, some, true, false, List, [], ◌∷◌, map}
use mvirt.Redb.{Redb}
use mvirt.Redb.Memory.{memory}
use mvirt.Lru.{Lru}
use mvirt.Lru.Bounded.{bounded}
use mvirt.Replica.{Replica, signed}
use mvirt.Command.{Command}
use mvirt.State.{ApiState, with_db}
use mvirt.Apply.Run.{run}
use mvirt.Resource.Vm.{VmDesiredState}
use mvirt.Resource.Account.{MembershipScope, Role}
use mvirt.Resource.Node.{RevocationReason}

instance abbrev pub test_redb : Redb
test_redb = memory

instance abbrev pub test_lru : Lru
test_lru = bounded

abbrev pub replica : Replica
replica = record {
  now = "2026-01-02";
  new_serial = 7 ∷ [];
  sign_node_leaf = λ ca csr node cluster serial.
      signed (record { cert_pem = csr; serial_hex = "07"; not_after = "2027" });
  trim = λ s. s;
  to_lowercase = λ s. s;
}

abbrev pub create_org : Command
create_org = Command.create_org (record {
  request_id = "r1";
  timestamp = "t1";
  slug = "acme";
  name = "Acme";
  contact = record {
    legal_name = none;
    street_address = none;
    postal_code = none;
    city = none;
    country = none;
    technical_contact_email = none;
    billing_contact_email = none;
    vat_id = none;
  };
})

abbrev pub create_project : Command
create_project = Command.create_project (record {
  request_id = "r2";
  timestamp = "t2";
  org_slug = "acme";
  slug = "web";
  name = "Web";
  description = none;
})

abbrev pub create_cluster : Command
create_cluster = Command.create_cluster (record {
  request_id = "r3";
  timestamp = "t3";
  org_slug = "acme";
  slug = "berlin";
  name = "Berlin";
  description = none;
  location = none;
})

abbrev pub create_network : Command
create_network = Command.create_network (record {
  request_id = "r4";
  id = "net";
  timestamp = "t4";
  project_slug = "web";
  name = "lan";
  ipv4_enabled = true;
  ipv4_prefix = some "10.0.0.0/24";
  ipv6_enabled = false;
  ipv6_prefix = none;
  dns_servers = [];
  ntp_servers = [];
  is_public = false;
})

abbrev pub create_nic : String → String → Command
create_nic request id = Command.create_nic (record {
  request_id = request;
  id = id;
  timestamp = "t5";
  project_slug = "web";
  network_id = "net";
  name = none;
  mac_address = some "52:54:00:00:00:01";
  ipv4_address = none;
  ipv6_address = none;
  routed_ipv4_prefixes = [];
  routed_ipv6_prefixes = [];
  security_group_id = none;
})

abbrev pub create_vm : Command
create_vm = Command.create_vm (record {
  request_id = "r7";
  id = "vm";
  timestamp = "t7";
  spec = record {
    name = "server";
    project_slug = "web";
    node_selector = none;
    cpu_cores = 2;
    memory_mb = 1024;
    volume_id = "vol";
    nic_id = "nic";
    image = "";
    user_data = none;
    desired_state = VmDesiredState.running;
  };
})

abbrev pub create_template : Command
create_template = Command.create_template (record {
  request_id = "r8";
  id = "tpl";
  timestamp = "t8";
  project_slug = "web";
  node_id = "node";
  name = "debian";
  size_bytes = 10;
  source_url = none;
  total_bytes = 0;
})

abbrev pub create_volume : Command
create_volume = Command.create_volume (record {
  request_id = "r9";
  id = "vol";
  timestamp = "t9";
  project_slug = "web";
  node_id = "node";
  name = "disk";
  size_bytes = 20;
  template_id = some "tpl";
})

abbrev pub create_account : Command
create_account = Command.create_account_by_email (record {
  request_id = "r10";
  timestamp = "t10";
  id = "alice";
  email = "alice@example.org";
  display_name = none;
})

abbrev pub bootstrap_admin : Command
bootstrap_admin =
    Command.bootstrap_initial_platform_admin
      (record { request_id = "r11"; timestamp = "t11"; id = "m1"; account_id = "alice" })

abbrev pub ensure_ca : Command
ensure_ca = Command.ensure_internal_ca (record {
  request_id = "r12";
  timestamp = "t12";
  ca = record { ca_cert_pem = "ca"; ca_key_pem = "key"; created_at = "t12" };
})

abbrev pub create_token : Command
create_token = Command.create_onboarding_token (record {
  request_id = "r13";
  timestamp = "2026-01-01";
  id = "tok";
  token_hash_hex = "hash";
  cluster_slug = "berlin";
  node_id = "node";
  hostname = "host";
  description = none;
  expires_at = "2026-01-03";
  created_by_account = "alice";
})

abbrev pub redeem_token : Command
redeem_token = Command.redeem_onboarding_token (record {
  request_id = "r14";
  timestamp = "2026-01-02";
  token_hash_hex = "hash";
  csr_pem = "csr";
  hostname = "host";
  agent_version = "1";
  kernel_version = "6";
  arch = "x86_64";
})

abbrev pub commands : List Command
commands =
    create_org
    ∷ create_project
    ∷ create_cluster
    ∷ create_network
    ∷ create_nic "r5" "nic"
    ∷ create_nic "r6" "nic2"
    ∷ create_vm
    ∷ create_template
    ∷ create_volume
    ∷ create_account
    ∷ bootstrap_admin
    ∷ ensure_ca
    ∷ create_token
    ∷ redeem_token
    ∷ []

abbrev pub history : List (Replica × Command)
history = map (λ cmd. (replica, cmd)) commands

abbrev pub populated : ApiState
populated = run with_db history

abbrev pub delete_org : Command
delete_org = Command.delete_org (record { request_id = "r20"; slug = "acme" })

abbrev pub delete_vm : Command
delete_vm = Command.delete_vm (record { request_id = "r21"; id = "vm" })

abbrev pub resize_volume : Command
resize_volume =
    Command.resize_volume
      (record { request_id = "r22"; id = "vol"; timestamp = "t22"; size_bytes = 5 })

abbrev pub revoke_cert : Command
revoke_cert = Command.revoke_node_cert (record {
  request_id = "r23";
  timestamp = "t23";
  node_id = "node";
  reason = RevocationReason.compromise;
})

abbrev pub create_key : Command
create_key = Command.create_static_api_key (record {
  request_id = "r24";
  timestamp = "t24";
  id = "key";
  account_id = "alice";
  hash_hex = "h";
  display_prefix = "p";
  description = none;
  expires_at = none;
  created_by_account = "alice";
})

abbrev pub create_membership : Command
create_membership = Command.create_membership (record {
  request_id = "r25";
  timestamp = "t25";
  id = "m2";
  account_id = "alice";
  scope = MembershipScope.platform;
  role = Role.platform_admin;
  created_by_account = "alice";
})
