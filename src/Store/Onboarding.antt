-- ===== src/Store/Onboarding.antt =====
-- mvirt-cplane/src/store/raft_store.rs: the methods of the store for onboarding and certificates.
use mvirt.Prelude.{String, Option, List, [], ◌∷◌}
use mvirt.Redb.{Redb}
use mvirt.Lru.{Lru}
use mvirt.Query
use mvirt.Command.{Command}
use mvirt.Resource.Node.{RevocationReason}
use mvirt.Resource.Onboarding.{OnboardingTokenData, ServerCertData}
use mvirt.Store.Error.StoreError.{not_found}
use mvirt.Store.Raft.{Raft}
use mvirt.Store.Call.{Fresh, Store, read, send, reply}
use mvirt.Store.Answer.{as_deleted}
use mvirt.Prelude.{ℕ, ◌*◌, ltb, if◌then◌else◌, ◌<>◌, hex_byte, as_bytes}
use mvirt.Resource.Onboarding.{InternalCa}
use mvirt.Replica.{SignedLeaf}
use mvirt.Store.Error.{StoreError, Result, ok, err}
use mvirt.Store.Error.StoreError.{conflict, unauthorized, gone, validation}
use mvirt.Store.Request.{
  CreateOnboardingTokenRequest, RedeemOnboardingTokenRequest, BootstrapOutcome,
}
use mvirt.Store.Call.{◌>>=◌, lift, ok_or, or_else}
use mvirt.Store.Answer.{as_ack, as_onboarding_token, as_bootstrap_outcome}

-- What the functions of mvirt-cplane/src/ca.rs that call the crate `rcgen` give.
pub data Made (A : Type 0) : Type 0 where
  made : A → Made A
  broken : String → Made A

-- Those functions, with the key beside the signed certificate, and the hash of the crate `sha2`.
pub record Crates : Type 0 where
  pub generate_root_ca : String → Made InternalCa
  pub sign_server_cert : InternalCa → List String → Made (SignedLeaf × String)
  pub sha256 : List ℕ → List ℕ

-- `map_err(|e| StoreError::Internal(format!("{what}{e}")))`.
abbrev pub made_or : {A : Type 0} → String → Made A → Result A
made_or what (made a) = ok a
made_or what (broken e) = err (StoreError.internal (what <> e))

unfoldable pub hex : List ℕ → String
hex [] = ""
hex (b ∷ rest) = hex_byte b <> hex rest

unfoldable pub sha256_hex : Crates → String → String
unfolding hex
sha256_hex crates input = hex (crates.sha256 (as_bytes input))

unfoldable pub clamp : ℕ → ℕ → ℕ → ℕ
clamp lo hi x = if ltb x lo then lo else if ltb hi x then hi else x

unfoldable pub revoke_node_cert_command : Fresh → String → RevocationReason → Command
revoke_node_cert_command f node_id reason =
    Command.revoke_node_cert
      (record { request_id = f.request_id; timestamp = f.now; node_id = node_id; reason = reason })

unfoldable pub redeem_onboarding_token_command :
    Crates → Fresh → RedeemOnboardingTokenRequest → Command
unfolding sha256_hex
redeem_onboarding_token_command crates f req = Command.redeem_onboarding_token (record {
  request_id = f.request_id;
  timestamp = f.now;
  token_hash_hex = sha256_hex crates req.token;
  csr_pem = req.csr_pem;
  hostname = req.hostname;
  agent_version = req.agent_version;
  kernel_version = req.kernel_version;
  arch = req.arch;
})

unfoldable pub delete_onboarding_token_command : Fresh → String → String → Command
delete_onboarding_token_command f cluster_slug id =
    Command.delete_onboarding_token
      (record { request_id = f.request_id; cluster_slug = cluster_slug; id = id })

unfoldable pub create_onboarding_token_command :
    Crates → Fresh → CreateOnboardingTokenRequest → Command
unfolding sha256_hex clamp
create_onboarding_token_command crates f req = Command.create_onboarding_token (record {
  request_id = f.request_id;
  timestamp = f.now;
  id = "tok_" <> f.short_id;
  token_hash_hex = sha256_hex crates f.bare_token;
  cluster_slug = req.cluster_slug;
  node_id = "node_" <> f.simple;
  hostname = req.hostname;
  description = req.description;
  expires_at = f.later (clamp 60 (7 * 24 * 3600) req.ttl_seconds);
  created_by_account = req.created_by_account;
})

module _ ⦃redb : Redb⦄ ⦃lru : Lru⦄ ⦃raft : Raft⦄ where
  unfoldable pub get_server_cert : Store (Option ServerCertData)
  unfolding read
  get_server_cert = read (λ db. Query.Onboarding.get_server_cert db)

  unfoldable pub list_onboarding_tokens_by_cluster : String → Store (List OnboardingTokenData)
  unfolding read
  list_onboarding_tokens_by_cluster cluster_slug =
      read (λ db. Query.Onboarding.list_onboarding_tokens_by_cluster db cluster_slug)

  unfoldable pub delete_onboarding_token : Fresh → String → String → Store (Unit {0})
  delete_onboarding_token f cluster_slug id =
      send (delete_onboarding_token_command f cluster_slug id)
        (reply as_deleted ((404, not_found) ∷ []))

  unfoldable pub revoke_node_cert : Fresh → String → RevocationReason → Store (Unit {0})
  revoke_node_cert f node_id reason =
      send (revoke_node_cert_command f node_id reason) (reply as_deleted ((404, not_found) ∷ []))

  unfoldable pub ensure_internal_ca : Crates → Fresh → String → Store InternalCa
  unfolding read
  ensure_internal_ca crates f deployment_name = do
    found ← read (λ db. Query.Onboarding.get_internal_ca db)
    or_else found (do
      ca ← lift (made_or "generate CA: " (crates.generate_root_ca deployment_name))
      _ ←
          send
            (Command.ensure_internal_ca
              (record { request_id = f.request_id; timestamp = f.now; ca = ca }))
            (reply as_ack [])
      agreed ← read (λ db. Query.Onboarding.get_internal_ca db)
      lift (ok_or agreed (StoreError.internal "CA missing after EnsureInternalCa")))

  -- `answered_at` is the time when the answer is there.
  unfoldable pub rotate_server_cert :
      Crates → Fresh → Fresh → String → List String → Store ServerCertData
  unfolding ensure_internal_ca
  rotate_server_cert crates f g answered_at dns_names = do
    ca ← ensure_internal_ca crates f "mvirt"
    signed ← lift (made_or "sign server cert: " (crates.sign_server_cert ca dns_names))
    _ ←
        send
          (Command.update_server_cert (record {
            request_id = g.request_id;
            timestamp = g.now;
            cert_pem = signed.0.cert_pem;
            key_pem = signed.1;
            serial_hex = signed.0.serial_hex;
            not_after = signed.0.not_after;
          }))
          (reply as_ack [])
    lift (
        ok (record {
          cert_pem = signed.0.cert_pem;
          key_pem = signed.1;
          serial_hex = signed.0.serial_hex;
          not_after = signed.0.not_after;
          created_at = answered_at;
        }))

  unfoldable pub create_onboarding_token :
      Crates → Fresh → CreateOnboardingTokenRequest → Store (OnboardingTokenData × String)
  create_onboarding_token crates f req = do
    token ←
        send (create_onboarding_token_command crates f req)
          (reply as_onboarding_token ((404, not_found) ∷ (409, conflict) ∷ []))
    lift (ok (token, f.bare_token))

  unfoldable pub redeem_onboarding_token :
      Crates → Fresh → RedeemOnboardingTokenRequest → Store BootstrapOutcome
  redeem_onboarding_token crates f req = send (redeem_onboarding_token_command crates f req) (
      reply as_bootstrap_outcome
        ((401, unauthorized) ∷ (410, gone) ∷ (400, validation) ∷ (503, StoreError.internal) ∷ []))
