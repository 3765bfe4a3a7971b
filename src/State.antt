-- ===== src/State.antt =====
-- mvirt-cplane/src/state.rs: the tables, and the replicated state with its idempotency cache.
use mvirt.Prelude.{ℕ, String}
use mvirt.Redb.{Redb}
use mvirt.Redb.Txn.{Table}
use mvirt.Lru.{Lru}
use mvirt.Response.{Response}
use mvirt.Resource.Node.{NodeData}
use mvirt.Resource.Network.{NetworkData, NicData}
use mvirt.Resource.Vm.{VmData}
use mvirt.Resource.Org.{OrgData, ProjectData, ClusterData}
use mvirt.Resource.Storage.{VolumeData, TemplateData}
use mvirt.Resource.SecurityGroup.{SecurityGroupData}
use mvirt.Resource.Onboarding.{OnboardingTokenData, RevokedCertData, InternalCa, ServerCertData}
use mvirt.Resource.Account.{AccountData, MembershipData, ApiKeyData}

-- The rows of the table `pki`: one of each kind, under its own key.
pub data PkiEntry : Type 0 where
  internal_ca : InternalCa → PkiEntry
  server_cert : ServerCertData → PkiEntry

abbrev pub pki_key_ca : String
pki_key_ca = "internal_ca"

abbrev pub pki_key_server : String
pki_key_server = "server_cert"

module _ ⦃redb : Redb⦄ where
  pub record Tables : Type 0 where
    pub nodes : Table NodeData
    pub networks : Table NetworkData
    pub nics : Table NicData
    pub vms : Table VmData
    pub orgs : Table OrgData
    pub projects : Table ProjectData
    pub clusters : Table ClusterData
    pub volumes : Table VolumeData
    pub templates : Table TemplateData
    pub security_groups : Table SecurityGroupData
    pub onboarding_tokens : Table OnboardingTokenData
    pub revoked_certs : Table RevokedCertData
    pub accounts : Table AccountData
    pub memberships : Table MembershipData
    pub api_keys : Table ApiKeyData
    pub pki : Table PkiEntry

  -- All tables, newly made.
  unfoldable pub init_tables : Tables
  init_tables = record {
    nodes = redb.new NodeData;
    networks = redb.new NetworkData;
    nics = redb.new NicData;
    vms = redb.new VmData;
    orgs = redb.new OrgData;
    projects = redb.new ProjectData;
    clusters = redb.new ClusterData;
    volumes = redb.new VolumeData;
    templates = redb.new TemplateData;
    security_groups = redb.new SecurityGroupData;
    onboarding_tokens = redb.new OnboardingTokenData;
    revoked_certs = redb.new RevokedCertData;
    accounts = redb.new AccountData;
    memberships = redb.new MembershipData;
    api_keys = redb.new ApiKeyData;
    pki = redb.new PkiEntry;
  }

module _ ⦃redb : Redb⦄ ⦃lru : Lru⦄ where
  pub record ApiState : Type 0 where
    pub db : Tables
    pub applied_requests : lru.Cache Response

  abbrev pub cache_capacity : ℕ
  cache_capacity = 1000

  unfoldable pub with_db : ApiState
  unfolding init_tables
  with_db = record { db = init_tables; applied_requests = lru.new Response cache_capacity }
