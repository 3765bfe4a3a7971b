-- ===== src/Query/Onboarding.antt =====
-- mvirt-cplane/src/state.rs: the queries of `ApiState` over the PKI, onboarding tokens and revoked certificates.
use mvirt.Prelude.{String, Bool, Option, none, some, List, ◌==◌, keep, is_some}
use mvirt.Redb.{Redb}
use mvirt.Redb.Txn.{read_get, read_list}
use mvirt.Resource.Onboarding.{OnboardingTokenData, RevokedCertData, InternalCa, ServerCertData}
use mvirt.State.{Tables, PkiEntry, internal_ca, server_cert, pki_key_ca, pki_key_server}
use mvirt.Apply.Onboarding.{ca_of}

abbrev pub cert_of : PkiEntry → Option ServerCertData
cert_of (internal_ca ca) = none
cert_of (server_cert cert) = some cert

module _ ⦃redb : Redb⦄ (db : Tables) where
  unfoldable pub get_internal_ca : Option InternalCa
  get_internal_ca = elim (read_get db.pki pki_key_ca) [ none ↦ none | some entry ↦ ca_of entry ]

  unfoldable pub get_server_cert : Option ServerCertData
  get_server_cert = elim (read_get db.pki pki_key_server) [
    | none ↦ none
    | some entry ↦ cert_of entry
  ]

  unfoldable pub list_onboarding_tokens : List OnboardingTokenData
  list_onboarding_tokens = read_list db.onboarding_tokens

  unfoldable pub list_onboarding_tokens_by_cluster : String → List OnboardingTokenData
  list_onboarding_tokens_by_cluster cluster_slug =
      keep (λ x. x.cluster_slug == cluster_slug) (read_list db.onboarding_tokens)

  unfoldable pub get_onboarding_token : String → Option OnboardingTokenData
  get_onboarding_token id = read_get db.onboarding_tokens id

  unfoldable pub list_revoked_certs : List RevokedCertData
  list_revoked_certs = read_list db.revoked_certs

  unfoldable pub is_cert_revoked : String → Bool
  is_cert_revoked serial_hex = is_some (read_get db.revoked_certs serial_hex)
