-- ===== src/Store/Expected.antt =====
-- Every handler answers its command with the kind of response that the store expects of it, or with
-- an error. (mvirt-cplane/src/state.rs, mvirt-cplane/src/store/raft_store.rs)
use mvirt.Prelude.{String, ℕ, Bool, true, ◌||◌, ◌≡◌, none, some, Option, is_some}
use mvirt.Redb.{Redb}
use mvirt.Command.Vm.{CreateVm}
use mvirt.Resource.SecurityGroup.{SecurityGroupData}
use mvirt.Resource.Storage.{TemplateData}
use mvirt.Resource.Account.{MembershipScope}
use mvirt.Replica.{Signing, signed, refused}
use mvirt.Replica.{Replica}
use mvirt.Response.{Response}
use mvirt.Command.{Command}
use mvirt.State.{Tables}
use mvirt.Apply.{execute}
use mvirt.Apply.Errors.{is_error}
use mvirt.Apply.Answers.{Answers, Returns, answer_rules}
use mvirt.Apply.Onboarding.{signed_or}
use mvirt.Apply.Account.{check_scope}
use mvirt.Apply.Volume.{find_template}
use mvirt.Apply.Nic.{find_security_group}
use mvirt.Apply.Vm.{check_free, check_nic}
use mvirt.Redb.Txn.{Table}
use mvirt.Apply.Onboarding.{apply_redeem_onboarding_token}
use mvirt.Apply.Account.{
  apply_create_account_by_email, apply_ensure_account_from_oidc,
  apply_bootstrap_initial_platform_admin,
}
use mvirt.Store.Answer.{
  as_node, as_network, as_nic, as_vm, as_org, as_project, as_cluster, as_volume, as_template,
  as_security_group, as_onboarding_token, as_account, as_membership, as_api_key, as_deleted, as_ack,
  as_granted, as_delete_network_result, as_bootstrap_outcome,
}

-- What the store takes for an answer to a command.
abbrev pub expected : Command → Response → Bool
expected (Command.register_node c) r = is_some (as_node r) || is_error r
expected (Command.update_node_status c) r = is_some (as_node r) || is_error r
expected (Command.deregister_node c) r = is_some (as_deleted r) || is_error r
expected (Command.create_network c) r = is_some (as_network r) || is_error r
expected (Command.update_network c) r = is_some (as_network r) || is_error r
expected (Command.delete_network c) r = is_some (as_delete_network_result r) || is_error r
expected (Command.create_nic c) r = is_some (as_nic r) || is_error r
expected (Command.update_nic c) r = is_some (as_nic r) || is_error r
expected (Command.delete_nic c) r = is_some (as_deleted r) || is_error r
expected (Command.attach_nic c) r = is_some (as_nic r) || is_error r
expected (Command.detach_nic c) r = is_some (as_nic r) || is_error r
expected (Command.update_nic_status c) r = is_some (as_nic r) || is_error r
expected (Command.create_vm c) r = is_some (as_vm r) || is_error r
expected (Command.update_vm_spec c) r = is_some (as_vm r) || is_error r
expected (Command.update_vm_status c) r = is_some (as_vm r) || is_error r
expected (Command.delete_vm c) r = is_some (as_deleted r) || is_error r
expected (Command.create_org c) r = is_some (as_org r) || is_error r
expected (Command.update_org c) r = is_some (as_org r) || is_error r
expected (Command.delete_org c) r = is_some (as_deleted r) || is_error r
expected (Command.create_project c) r = is_some (as_project r) || is_error r
expected (Command.delete_project c) r = is_some (as_deleted r) || is_error r
expected (Command.ensure_internal_ca c) r = is_some (as_ack r) || is_error r
expected (Command.update_server_cert c) r = is_some (as_ack r) || is_error r
expected (Command.create_onboarding_token c) r = is_some (as_onboarding_token r) || is_error r
expected (Command.delete_onboarding_token c) r = is_some (as_deleted r) || is_error r
expected (Command.redeem_onboarding_token c) r = is_some (as_bootstrap_outcome r) || is_error r
expected (Command.revoke_node_cert c) r = is_some (as_deleted r) || is_error r
expected (Command.create_account_by_email c) r = is_some (as_account r) || is_error r
expected (Command.ensure_account_from_oidc c) r = is_some (as_account r) || is_error r
expected (Command.create_membership c) r = is_some (as_membership r) || is_error r
expected (Command.delete_membership c) r = is_some (as_deleted r) || is_error r
expected (Command.bootstrap_initial_platform_admin c) r = is_some (as_granted r) || is_error r
expected (Command.create_service_account c) r = is_some (as_account r) || is_error r
expected (Command.delete_service_account c) r = is_some (as_deleted r) || is_error r
expected (Command.create_static_api_key c) r = is_some (as_api_key r) || is_error r
expected (Command.revoke_static_api_key c) r = is_some (as_api_key r) || is_error r
expected (Command.create_cluster c) r = is_some (as_cluster r) || is_error r
expected (Command.update_cluster c) r = is_some (as_cluster r) || is_error r
expected (Command.delete_cluster c) r = is_some (as_deleted r) || is_error r
expected (Command.add_node_to_cluster c) r = is_some (as_cluster r) || is_error r
expected (Command.remove_node_from_cluster c) r = is_some (as_cluster r) || is_error r
expected (Command.create_volume c) r = is_some (as_volume r) || is_error r
expected (Command.delete_volume c) r = is_some (as_deleted r) || is_error r
expected (Command.update_volume_status c) r = is_some (as_volume r) || is_error r
expected (Command.resize_volume c) r = is_some (as_volume r) || is_error r
expected (Command.create_snapshot c) r = is_some (as_volume r) || is_error r
expected (Command.create_template c) r = is_some (as_template r) || is_error r
expected (Command.update_template_status c) r = is_some (as_template r) || is_error r
expected (Command.create_security_group c) r = is_some (as_security_group r) || is_error r
expected (Command.update_security_group c) r = is_some (as_security_group r) || is_error r
expected (Command.delete_security_group c) r = is_some (as_deleted r) || is_error r
expected (Command.create_security_group_rule c) r = is_some (as_security_group r) || is_error r
expected (Command.delete_security_group_rule c) r = is_some (as_security_group r) || is_error r
expected (Command.update_security_group_rule c) r = is_some (as_security_group r) || is_error r

abbrev TakesErrors : (Response → Bool) → Type 0
TakesErrors ok = (code : ℕ) (message : String) → ok (Response.error code message) ≡ true

module _ {ok : Response → Bool} (takes : TakesErrors ok) where
  Returns-check_nic : (o : Option String) (c : CreateVm) → Returns ok (check_nic o c)
  unfolding check_nic check_free
  Returns-check_nic none c = search answer_rules
  Returns-check_nic (some other_vm) c = search answer_rules

  Returns-signed_or : (s : Signing) → Returns ok (signed_or s)
  Returns-signed_or (signed leaf) = search answer_rules
  Returns-signed_or (refused e) = search answer_rules

module _ ⦃redb : Redb⦄ {ok : Response → Bool} (takes : TakesErrors ok) where
  Returns-find_security_group :
      (t : Table SecurityGroupData) (id : Option String) → Returns ok (find_security_group t id)
  unfolding find_security_group
  Returns-find_security_group t none = search answer_rules
  Returns-find_security_group t (some id) = search answer_rules

  Returns-find_template :
      (t : Table TemplateData) (id : Option String) (node_id : String)
      → Returns ok (find_template t id node_id)
  unfolding find_template
  Returns-find_template t none node_id = search answer_rules
  Returns-find_template t (some id) node_id = search answer_rules

  Returns-check_scope : (db : Tables) (scope : MembershipScope) → Returns ok (check_scope db scope)
  unfolding check_scope
  Returns-check_scope db MembershipScope.platform = search answer_rules
  Returns-check_scope db (MembershipScope.org slug) = search answer_rules
  Returns-check_scope db (MembershipScope.project slug) = search answer_rules

ruleset part_rules = (
  answer_rules, Returns-check_nic, Returns-signed_or, Returns-find_security_group,
  Returns-find_template, Returns-check_scope,
)

module _ ⦃redb : Redb⦄ where
  -- Every response that a handler gives, by a commit or by an early return, is expected.
  pub execute-expected :
      (replica : Replica) (db : Tables) (cmd : Command)
      → Answers (expected cmd) (execute replica db cmd)
  unfolding execute apply_redeem_onboarding_token apply_create_account_by_email
      apply_ensure_account_from_oidc apply_bootstrap_initial_platform_admin
  execute-expected replica db (Command.register_node c) = search part_rules depth 10
  execute-expected replica db _ = search part_rules depth 12
