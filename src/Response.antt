-- ===== src/Response.antt =====
-- mvirt-cplane/src/command.rs, `Response`, and mvirt-cplane/src/store/event.rs, `Event`: what
-- applying a command gives back, and what it tells the subscribers.
use mvirt.Prelude.{ℕ, String}
use mvirt.Resource.Account.{AccountData, ApiKeyData, MembershipData}
use mvirt.Resource.Network.{NetworkData, NicData}
use mvirt.Resource.Node.{NodeData}
use mvirt.Resource.Onboarding.{OnboardingTokenData}
use mvirt.Resource.Org.{ClusterData, OrgData, ProjectData}
use mvirt.Resource.SecurityGroup.{SecurityGroupData}
use mvirt.Resource.Storage.{TemplateData, VolumeData}
use mvirt.Resource.Vm.{VmData}

pub data Response : Type 0 where
  node : NodeData → Response
  network : NetworkData → Response
  nic : NicData → Response
  vm : VmData → Response
  org : OrgData → Response
  project : ProjectData → Response
  cluster : ClusterData → Response
  onboarding_token : OnboardingTokenData → Response
  account : AccountData → Response
  membership : MembershipData → Response
  api_key : ApiKeyData → Response
  bootstrap_result : NodeData → String → String → Response
  ack : Response
  volume : VolumeData → Response
  template : TemplateData → Response
  security_group : SecurityGroupData → Response
  deleted : String → Response
  deleted_with_count : String → ℕ → Response
  error : ℕ → String → Response

pub data Event : Type 0 where
  node_registered : NodeData → Event
  node_updated : String → NodeData → NodeData → Event
  node_deregistered : String → Event
  network_created : NetworkData → Event
  network_updated : String → NetworkData → NetworkData → Event
  network_deleted : String → Event
  nic_created : NicData → Event
  nic_updated : String → NicData → NicData → Event
  nic_deleted : String → String → Event
  vm_created : VmData → Event
  vm_updated : String → VmData → VmData → Event
  vm_status_updated : String → VmData → VmData → Event
  vm_deleted : String → Event
  volume_created : VolumeData → Event
  volume_status_updated : String → VolumeData → VolumeData → Event
  volume_deleted : String → String → Event
  template_created : TemplateData → Event
  template_updated : String → TemplateData → TemplateData → Event
  security_group_created : String → Event
  security_group_deleted : String → Event
