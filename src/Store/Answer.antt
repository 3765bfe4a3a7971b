-- ===== src/Store/Answer.antt =====
-- mvirt-cplane/src/store/raft_store.rs: the responses that the methods of the store expect, each as
-- the arm of the `match` that takes it.
use mvirt.Prelude.{Option, none, some, unwrap_or}
use mvirt.Resource.Account.{AccountData, ApiKeyData, MembershipData}
use mvirt.Resource.Network.{NetworkData, NicData}
use mvirt.Resource.Node.{NodeData}
use mvirt.Resource.Onboarding.{OnboardingTokenData}
use mvirt.Resource.Org.{ClusterData, OrgContact, OrgData, ProjectData}
use mvirt.Resource.SecurityGroup.{SecurityGroupData}
use mvirt.Resource.Storage.{TemplateData, VolumeData}
use mvirt.Resource.Vm.{VmData}
use mvirt.Response.{Response}
use mvirt.Store.Request.{BootstrapOutcome, DeleteNetworkResult}

abbrev pub as_node : Response → Option NodeData
as_node (Response.node x) = some x
as_node _ = none

abbrev pub as_network : Response → Option NetworkData
as_network (Response.network x) = some x
as_network _ = none

abbrev pub as_nic : Response → Option NicData
as_nic (Response.nic x) = some x
as_nic _ = none

abbrev pub as_vm : Response → Option VmData
as_vm (Response.vm x) = some x
as_vm _ = none

abbrev pub as_org : Response → Option OrgData
as_org (Response.org x) = some x
as_org _ = none

abbrev pub as_project : Response → Option ProjectData
as_project (Response.project x) = some x
as_project _ = none

abbrev pub as_cluster : Response → Option ClusterData
as_cluster (Response.cluster x) = some x
as_cluster _ = none

abbrev pub as_volume : Response → Option VolumeData
as_volume (Response.volume x) = some x
as_volume _ = none

abbrev pub as_template : Response → Option TemplateData
as_template (Response.template x) = some x
as_template _ = none

abbrev pub as_security_group : Response → Option SecurityGroupData
as_security_group (Response.security_group x) = some x
as_security_group _ = none

abbrev pub as_onboarding_token : Response → Option OnboardingTokenData
as_onboarding_token (Response.onboarding_token x) = some x
as_onboarding_token _ = none

abbrev pub as_account : Response → Option AccountData
as_account (Response.account x) = some x
as_account _ = none

abbrev pub as_membership : Response → Option MembershipData
as_membership (Response.membership x) = some x
as_membership _ = none

abbrev pub as_api_key : Response → Option ApiKeyData
as_api_key (Response.api_key x) = some x
as_api_key _ = none

abbrev pub as_deleted : Response → Option (Unit {0})
as_deleted (Response.deleted id) = some tt
as_deleted _ = none

abbrev pub as_ack : Response → Option (Unit {0})
as_ack Response.ack = some tt
as_ack _ = none

abbrev pub as_granted : Response → Option (Unit {0})
as_granted (Response.membership m) = some tt
as_granted Response.ack = some tt
as_granted _ = none

abbrev pub as_delete_network_result : Response → Option DeleteNetworkResult
as_delete_network_result (Response.deleted id) = some (record { nics_deleted = 0 })
as_delete_network_result (Response.deleted_with_count id n) = some (record { nics_deleted = n })
as_delete_network_result _ = none

abbrev pub as_bootstrap_outcome : Response → Option BootstrapOutcome
as_bootstrap_outcome (Response.bootstrap_result node client_cert_pem ca_cert_pem) = some (record {
  node_id = node.id;
  cluster_slug = unwrap_or node.cluster_slug "";
  client_cert_pem = client_cert_pem;
  ca_cert_pem = ca_cert_pem;
  cert_not_after = unwrap_or node.cert_expires_at "";
})
as_bootstrap_outcome _ = none

-- `OrgContact::default()`.
abbrev pub default_contact : OrgContact
default_contact = record {
  legal_name = none;
  street_address = none;
  postal_code = none;
  city = none;
  country = none;
  technical_contact_email = none;
  billing_contact_email = none;
  vat_id = none;
}
