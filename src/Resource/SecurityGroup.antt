-- ===== src/Resource/SecurityGroup.antt =====
-- mvirt-cplane/src/command.rs: the rows of security groups and their rules.
use mvirt.Prelude.{ℕ, String, Option, List}

pub data RuleDirection : Type 0 where
  inbound outbound : RuleDirection

pub record SecurityGroupRuleData : Type 0 where
  pub id : String
  pub direction : RuleDirection
  pub protocol : Option String
  pub port_range_start : Option ℕ
  pub port_range_end : Option ℕ
  pub cidr : Option String
  pub description : Option String
  pub created_at : String

pub record SecurityGroupData : Type 0 where
  pub id : String
  pub project_slug : String
  pub name : String
  pub description : Option String
  pub rules : List SecurityGroupRuleData
  pub nic_count : ℕ
  pub created_at : String
  pub updated_at : String
