-- ===== src/Apply/Onboarding/Token.antt =====
-- mvirt-cplane/src/state.rs: the handlers of the onboarding tokens.
use mvirt.Prelude.{
  String, ◌<>◌, none, some, [], ◌∷◌, ◌++◌, ◌==◌, ◌&&◌, any, find, is_some, str_lt, opt_eq, not,
  if◌then◌else◌,
}
use mvirt.Redb.{Redb}
use mvirt.Redb.Txn.{Table, txn_get, txn_has, txn_list, txn_put, txn_delete}
use mvirt.Resource.Node.{NodeData, NodeStatus}
use mvirt.Resource.Org.{ClusterData}
use mvirt.Resource.Onboarding.{OnboardingTokenData}
use mvirt.Command.Onboarding.{CreateOnboardingToken, DeleteOnboardingToken, RedeemOnboardingToken}
use mvirt.Response.{Response}
use mvirt.State.{Tables}
use mvirt.Replica.{Replica, Signing, signed, refused, SignedLeaf}
use mvirt.Apply.Outcome.{Outcome, Handler, done, returned, ◌>>=◌, ◌>>◌, return_if, some_or}
use mvirt.Apply.Cluster.{cluster_not_found, is_member}
use package.mvirt.Apply.Onboarding.Cert.{find_ca, leave}

abbrev pub token_not_found : String → Response
token_not_found id = Response.error 404 ("Onboarding token '" <> id <> "' not found")

abbrev pub invalid_token : Response
invalid_token = Response.error 401 "invalid onboarding token"

abbrev pub new_token : CreateOnboardingToken → OnboardingTokenData
new_token c = record {
  id = c.id;
  token_hash_hex = c.token_hash_hex;
  cluster_slug = c.cluster_slug;
  node_id = c.node_id;
  hostname = c.hostname;
  description = c.description;
  expires_at = c.expires_at;
  used_at = none;
  used_by_node_id = none;
  created_by_account = c.created_by_account;
  created_at = c.timestamp;
}

-- The row that stands for the host until it redeems its token.
abbrev pub placeholder : CreateOnboardingToken → NodeData
placeholder c = record {
  id = c.node_id;
  name = c.hostname;
  address = "";
  status = NodeStatus.onboarding;
  resources = record {
    cpu_cores = 0;
    memory_mb = 0;
    storage_gb = 0;
    available_cpu_cores = 0;
    available_memory_mb = 0;
    available_storage_gb = 0;
  };
  labels = [];
  last_heartbeat = c.timestamp;
  created_at = c.timestamp;
  updated_at = c.timestamp;
  cluster_slug = some c.cluster_slug;
  cert_serial_hex = none;
  cert_expires_at = none;
  hostname = none;
  agent_version = none;
}

abbrev pub signed_or : Signing → Outcome SignedLeaf
signed_or (signed leaf) = done leaf
signed_or (refused e) = returned (Response.error 400 ("CSR invalid: " <> e))

module _ ⦃redb : Redb⦄ where
  -- A node joins the cluster that its token is for.
  unfoldable pub join : Table ClusterData → ClusterData → CreateOnboardingToken → Table ClusterData
  join t cluster c =
      if is_member c.node_id cluster
      then t
      else txn_put t c.cluster_slug (record cluster {
        node_ids = cluster.node_ids ++ c.node_id ∷ [];
        updated_at = c.timestamp;
      })

  -- The cluster of a token that was never redeemed, without its node.
  unfoldable pub leave_cluster : Table ClusterData → OnboardingTokenData → Table ClusterData
  leave_cluster t token = elim (txn_get t token.cluster_slug) [
    | none ↦ t
    | some cluster ↦ leave t cluster token.node_id
  ]

module _ ⦃redb : Redb⦄ (db : Tables) where
  unfoldable pub apply_create_onboarding_token : CreateOnboardingToken → Handler
  apply_create_onboarding_token c = do
    cluster ← some_or (txn_get db.clusters c.cluster_slug) (cluster_not_found c.cluster_slug)
    return_if (txn_has db.onboarding_tokens c.id)
        (Response.error 409 ("Onboarding token '" <> c.id <> "' already exists"))
    return_if (txn_has db.nodes c.node_id)
        (Response.error 409 ("Node '" <> c.node_id <> "' already exists"))
    return_if
        (any (λ n. opt_eq n.cluster_slug (some c.cluster_slug) && n.name == c.hostname)
          (txn_list db.nodes))
        (Response.error 409 (
          "A node with hostname '" <> c.hostname <> "' already exists in cluster '"
          <> c.cluster_slug <> "'"))
    let token = new_token c
    done (
      record db {
        onboarding_tokens = txn_put db.onboarding_tokens c.id token;
        nodes = txn_put db.nodes c.node_id (placeholder c);
        clusters = join db.clusters cluster c;
      },
      Response.onboarding_token token,
      [],
    )

  unfoldable pub apply_delete_onboarding_token : DeleteOnboardingToken → Handler
  apply_delete_onboarding_token c = do
    t ← some_or (txn_get db.onboarding_tokens c.id) (token_not_found c.id)
    return_if (not (t.cluster_slug == c.cluster_slug)) (
        Response.error 404
          ("Token '" <> c.id <> "' does not belong to cluster '" <> c.cluster_slug <> "'"))
    let tokens = txn_delete db.onboarding_tokens c.id
    if not (is_some t.used_at) && txn_has db.nodes t.node_id
        then done (
          record db {
            nodes = txn_delete db.nodes t.node_id;
            clusters = leave_cluster db.clusters t;
            onboarding_tokens = tokens;
          },
          Response.deleted c.id,
          [],
        )
        else done (record db { onboarding_tokens = tokens }, Response.deleted c.id, [])

  unfoldable pub apply_redeem_onboarding_token : Replica → RedeemOnboardingToken → Handler
  apply_redeem_onboarding_token replica c = do
    token ←
        some_or (find (λ t. t.token_hash_hex == c.token_hash_hex) (txn_list db.onboarding_tokens))
          invalid_token
    return_if (is_some token.used_at) invalid_token
    return_if (str_lt token.expires_at c.timestamp) invalid_token
    return_if (not (txn_has db.clusters token.cluster_slug))
        (Response.error 410 ("cluster '" <> token.cluster_slug <> "' gone since token issuance"))
    node ← some_or (txn_get db.nodes token.node_id) (
        Response.error 410
          ("placeholder node '" <> token.node_id <> "' was deleted; re-issue a fresh token"))
    ca ← some_or (find_ca db.pki) (Response.error 503 "internal CA not initialised")
    leaf ←
        signed_or
          (replica.sign_node_leaf ca c.csr_pem token.node_id token.cluster_slug replica.new_serial)
    let used = record token { used_at = some c.timestamp; used_by_node_id = some token.node_id }
    let joined = record node {
      status = NodeStatus.online;
      last_heartbeat = c.timestamp;
      updated_at = c.timestamp;
      cert_serial_hex = some leaf.serial_hex;
      cert_expires_at = some leaf.not_after;
      hostname = some c.hostname;
      agent_version = some (c.agent_version <> " (" <> c.kernel_version <> " " <> c.arch <> ")");
    }
    done (
      record db {
        onboarding_tokens = txn_put db.onboarding_tokens token.id used;
        nodes = txn_put db.nodes token.node_id joined;
      },
      Response.bootstrap_result joined leaf.cert_pem ca.ca_cert_pem,
      [],
    )
