-- ===== src/Store/Request.antt =====
-- mvirt-cplane/src/store/traits.rs: what the methods of the store take, and what some of them give.
use mvirt.Prelude.{ℕ, String, Bool, Option, List}
use mvirt.Resource.Account.{MembershipScope, Role}
use mvirt.Resource.Network.{NicPhase}
use mvirt.Resource.Node.{NodeResources, NodeStatus}
use mvirt.Resource.Org.{OrgContact}
use mvirt.Resource.SecurityGroup.{RuleDirection}
use mvirt.Resource.Storage.{TemplatePhase, VolumePhase}
use mvirt.Resource.Vm.{VmDesiredState, VmSpec, VmStatus}

pub record RegisterNodeRequest : Type 0 where
  pub name : String
  pub address : String
  pub resources : NodeResources
  pub labels : List (String × String)

pub record UpdateNodeStatusRequest : Type 0 where
  pub status : NodeStatus
  pub resources : Option NodeResources

pub record CreateNetworkRequest : Type 0 where
  pub project_slug : String
  pub name : String
  pub ipv4_enabled : Bool
  pub ipv4_prefix : Option String
  pub ipv6_enabled : Bool
  pub ipv6_prefix : Option String
  pub dns_servers : List String
  pub ntp_servers : List String
  pub is_public : Bool

pub record UpdateNetworkRequest : Type 0 where
  pub dns_servers : List String
  pub ntp_servers : List String

pub record DeleteNetworkResult : Type 0 where
  pub nics_deleted : ℕ

pub record CreateNicRequest : Type 0 where
  pub project_slug : String
  pub network_id : String
  pub name : Option String
  pub mac_address : Option String
  pub ipv4_address : Option String
  pub ipv6_address : Option String
  pub routed_ipv4_prefixes : List String
  pub routed_ipv6_prefixes : List String
  pub security_group_id : Option String

pub record UpdateNicRequest : Type 0 where
  pub routed_ipv4_prefixes : List String
  pub routed_ipv6_prefixes : List String

pub record CreateVmRequest : Type 0 where
  pub spec : VmSpec

pub record UpdateVmSpecRequest : Type 0 where
  pub desired_state : VmDesiredState

pub record UpdateVmStatusRequest : Type 0 where
  pub status : VmStatus

pub record CreateOrgRequest : Type 0 where
  pub slug : String
  pub name : String

pub record UpdateOrgRequest : Type 0 where
  pub name : Option String
  pub contact : Option OrgContact

pub record CreateProjectRequest : Type 0 where
  pub org_slug : String
  pub slug : String
  pub name : String
  pub description : Option String

pub record CreateClusterRequest : Type 0 where
  pub org_slug : String
  pub slug : String
  pub name : String
  pub description : Option String
  pub location : Option String

pub record UpdateClusterRequest : Type 0 where
  pub name : Option String
  pub description : Option (Option String)
  pub location : Option (Option String)

pub record CreateOnboardingTokenRequest : Type 0 where
  pub cluster_slug : String
  pub hostname : String
  pub description : Option String
  pub ttl_seconds : ℕ
  pub created_by_account : String

pub record RedeemOnboardingTokenRequest : Type 0 where
  pub token : String
  pub csr_pem : String
  pub hostname : String
  pub agent_version : String
  pub kernel_version : String
  pub arch : String

pub record BootstrapOutcome : Type 0 where
  pub node_id : String
  pub cluster_slug : String
  pub client_cert_pem : String
  pub ca_cert_pem : String
  pub cert_not_after : String

pub record CreateVolumeRequest : Type 0 where
  pub project_slug : String
  pub node_id : String
  pub name : String
  pub size_bytes : ℕ
  pub template_id : Option String

pub record ResizeVolumeRequest : Type 0 where
  pub size_bytes : ℕ

pub record CreateSnapshotRequest : Type 0 where
  pub name : String

pub record CreateTemplateRequest : Type 0 where
  pub project_slug : String
  pub node_id : String
  pub name : String
  pub size_bytes : ℕ
  pub source_url : Option String
  pub total_bytes : ℕ

pub record UpdateTemplateStatusRequest : Type 0 where
  pub phase : TemplatePhase
  pub bytes_written : ℕ
  pub size_bytes : ℕ
  pub error : Option String

pub record ControlplaneInfo : Type 0 where
  pub cluster_id : String
  pub leader_id : Option ℕ
  pub current_term : ℕ
  pub commit_index : ℕ
  pub peer_id : ℕ
  pub is_leader : Bool

pub record MembershipPeer : Type 0 where
  pub id : ℕ
  pub address : String
  pub role : String

pub record Membership : Type 0 where
  pub voters : List ℕ
  pub learners : List ℕ
  pub peers : List MembershipPeer

pub record UpdateNetworkStatusRequest : Type 0 where
  pub message : Option String

pub record UpdateNicStatusRequest : Type 0 where
  pub phase : NicPhase
  pub socket_path : String
  pub message : Option String

pub record EnsureAccountRequest : Type 0 where
  pub iss : String
  pub sub : String
  pub email : Option String
  pub display_name : Option String

pub record CreateAccountByEmailRequest : Type 0 where
  pub email : String
  pub display_name : Option String

pub record CreateMembershipRequest : Type 0 where
  pub account_id : String
  pub scope : MembershipScope
  pub role : Role
  pub created_by_account : String

pub record CreateServiceAccountRequest : Type 0 where
  pub project_slug : String
  pub name : String
  pub description : Option String
  pub created_by_account : String

pub record CreateStaticApiKeyRequest : Type 0 where
  pub account_id : String
  pub hash_hex : String
  pub display_prefix : String
  pub description : Option String
  pub expires_at : Option String
  pub created_by_account : String

pub record UpdateVolumeStatusRequest : Type 0 where
  pub phase : VolumePhase
  pub path : Option String
  pub used_bytes : ℕ
  pub error : Option String

pub record CreateSecurityGroupRequest : Type 0 where
  pub project_slug : String
  pub name : String
  pub description : Option String

pub record CreateSecurityGroupRuleRequest : Type 0 where
  pub direction : RuleDirection
  pub protocol : Option String
  pub port_range_start : Option ℕ
  pub port_range_end : Option ℕ
  pub cidr : Option String
  pub description : Option String

pub record UpdateSecurityGroupRequest : Type 0 where
  pub name : Option String
  pub description : Option (Option String)

pub record UpdateSecurityGroupRuleRequest : Type 0 where
  pub description : Option (Option String)
