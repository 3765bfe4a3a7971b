-- ===== src/Tests/Onboarding.antt =====
-- Tokens, certificates and volumes on small states.
use mvirt.Replica.{Replica}
use mvirt.Prelude.{Memᴰ, List, String, ◌≡◌, refl, none, some, [], ◌∷◌}
use mvirt.Redb.Txn.{Table, txn_get, txn_put}
use mvirt.Redb.Txn.Laws.{txn_get-txn_put_self}
use mvirt.Resource.Node.{NodeData, NodeStatus, RevocationReason}
use mvirt.Resource.Storage.{VolumeData, VolumePhase}
use mvirt.Resource.Onboarding.{OnboardingTokenData}
use mvirt.Command.{Command}
use mvirt.Command.Onboarding.{RedeemOnboardingToken, RevokeNodeCert}
use mvirt.Resource.Org.{ClusterData}
use mvirt.State.{internal_ca, Tables, ApiState, init_tables, with_db}
use mvirt.Apply.{execute}
use mvirt.Apply.Run.{run}
use mvirt.Apply.Ensures.{Ensures, Commits}
use mvirt.Apply.Onboarding.{apply_revoke_node_cert}
use mvirt.Invariant.Monotone.{
  IsRevoked, IsAtLeast, execute-IsRevoked, run-IsRevoked, execute-IsAtLeast,
}
use mvirt.Effect.Onboarding.{revoke_node_cert_lem, put-IsRevoked_self}
use mvirt.Tests.Sample.{test_redb, test_lru, replica, resize_volume, history}

abbrev pub token : OnboardingTokenData
token = record {
  id = "tok";
  token_hash_hex = "hash";
  cluster_slug = "berlin";
  node_id = "node";
  hostname = "host";
  description = none;
  expires_at = "2026-01-03";
  used_at = none;
  used_by_node_id = none;
  created_by_account = "alice";
  created_at = "2026-01-01";
}

abbrev pub tokens : Table OnboardingTokenData
tokens = txn_put init_tables.onboarding_tokens "tok" token

abbrev pub node : NodeData
node = record {
  id = "node";
  name = "host";
  address = "";
  status = NodeStatus.onboarding;
  resources = record {
    cpu_cores = 8;
    memory_mb = 4096;
    storage_gb = 100;
    available_cpu_cores = 4;
    available_memory_mb = 2048;
    available_storage_gb = 50;
  };
  labels = [];
  last_heartbeat = "t";
  created_at = "t";
  updated_at = "t";
  cluster_slug = some "berlin";
  cert_serial_hex = some "07";
  cert_expires_at = none;
  hostname = none;
  agent_version = none;
}

abbrev pub nodes : Table NodeData
nodes = txn_put init_tables.nodes "node" node

abbrev pub cluster : ClusterData
cluster = record {
  slug = "berlin";
  org_slug = "acme";
  name = "Berlin";
  description = none;
  location = none;
  node_ids = "node" ∷ [];
  created_at = "t";
  updated_at = "t";
}

abbrev pub token_db : Tables
token_db = record init_tables {
  onboarding_tokens = tokens;
  nodes = nodes;
  clusters = txn_put init_tables.clusters "berlin" cluster;
  pki =
      txn_put init_tables.pki "internal_ca"
        (internal_ca (record { ca_cert_pem = "ca"; ca_key_pem = "key"; created_at = "t" }));
}

abbrev redeem : String → RedeemOnboardingToken
redeem request = record {
  request_id = request;
  timestamp = "2026-01-02";
  token_hash_hex = "hash";
  csr_pem = "csr";
  hostname = "host";
  agent_version = "1";
  kernel_version = "6";
  arch = "x86_64";
}

abbrev token_state : ApiState
token_state = record with_db { db = token_db }

-- A volume grows in between.
abbrev meanwhile : List (Replica × Command)
meanwhile = (replica, resize_volume) ∷ []

abbrev pub revoke : RevokeNodeCert
revoke = record {
  request_id = "r3";
  timestamp = "t3";
  node_id = "node";
  reason = RevocationReason.compromise;
}

pub node_there : txn_get token_db.nodes revoke.node_id ≡ some node
node_there = txn_get-txn_put_self init_tables.nodes "node" "node" node refl

revoke_node_cert_lem_example :
    Commits
      (λ a.
        IsRevoked a.0.revoked_certs "07"
        × (txn_get a.0.nodes "node"
            ≡ some (record node { status = NodeStatus.revoked; updated_at = "t3" })))
      (apply_revoke_node_cert token_db revoke)
revoke_node_cert_lem_example = revoke_node_cert_lem token_db revoke node "07" node_there refl

abbrev revoked_state : ApiState
revoked_state = record with_db {
  db = record init_tables {
    revoked_certs = txn_put init_tables.revoked_certs "07" (record {
      serial_hex = "07";
      node_id = "node";
      revoked_at = "t";
      reason = RevocationReason.compromise;
    });
  };
}

serial-IsRevoked : IsRevoked revoked_state.db.revoked_certs "07"
serial-IsRevoked = put-IsRevoked_self init_tables.revoked_certs "07" _

execute-IsRevoked_example :
    Ensures
      (λ a. IsRevoked a.0.revoked_certs "07")
      (execute replica revoked_state.db (Command.revoke_node_cert revoke))
execute-IsRevoked_example =
    execute-IsRevoked replica revoked_state.db (Command.revoke_node_cert revoke) "07"
      serial-IsRevoked

run-IsRevoked_example : IsRevoked (run revoked_state history).db.revoked_certs "07"
run-IsRevoked_example = run-IsRevoked revoked_state history "07" serial-IsRevoked

abbrev volume : VolumeData
volume = record {
  id = "vol";
  spec = record {
    project_slug = "web";
    node_id = "node";
    name = "disk";
    size_bytes = 20;
    template_id = none;
  };
  status = record {
    phase = VolumePhase.ready;
    path = "/vol";
    used_bytes = 1;
    compression_ratio = 1;
    snapshots = [];
    error = none;
  };
  created_at = "t";
  updated_at = "t";
}

abbrev volume_db : Tables
volume_db = record init_tables { volumes = txn_put init_tables.volumes "vol" volume }

volume_there : txn_get volume_db.volumes "vol" ≡ some volume
volume_there = txn_get-txn_put_self init_tables.volumes "vol" "vol" volume refl

execute-IsAtLeast_example :
    Ensures (λ a. IsAtLeast 20 a.0.volumes "vol") (execute replica volume_db resize_volume)
execute-IsAtLeast_example =
    execute-IsAtLeast replica volume_db resize_volume "vol" volume volume_there
