-- ===== src/Command/SecurityGroup.antt =====
-- mvirt-cplane/src/command.rs: what the security group commands carry.
use mvirt.Prelude.{ℕ, String, Option}
use mvirt.Resource.SecurityGroup.{RuleDirection}

pub record CreateSecurityGroup : Type 0 where
  pub request_id : String
  pub id : String
  pub timestamp : String
  pub project_slug : String
  pub name : String
  pub description : Option String

pub record UpdateSecurityGroup : Type 0 where
  pub request_id : String
  pub timestamp : String
  pub id : String
  pub name : Option String
  pub description : Option (Option String)

pub record DeleteSecurityGroup : Type 0 where
  pub request_id : String
  pub id : String

pub record CreateSecurityGroupRule : Type 0 where
  pub request_id : String
  pub id : String
  pub timestamp : String
  pub security_group_id : String
  pub direction : RuleDirection
  pub protocol : Option String
  pub port_range_start : Option ℕ
  pub port_range_end : Option ℕ
  pub cidr : Option String
  pub description : Option String

pub record DeleteSecurityGroupRule : Type 0 where
  pub request_id : String
  pub security_group_id : String
  pub rule_id : String

pub record UpdateSecurityGroupRule : Type 0 where
  pub request_id : String
  pub timestamp : String
  pub security_group_id : String
  pub rule_id : String
  pub description : Option (Option String)
