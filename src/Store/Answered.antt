-- ===== src/Store/Answered.antt =====
-- The methods of the store that write one command succeed exactly if its response is no error.
-- (mvirt-cplane/src/store/raft_store.rs)
use mvirt.Prelude.{Bool, true, false, not, ◌||◌, ◌≡◌, refl, none, Option, is_some, arith}
use mvirt.Redb.{Redb}
use mvirt.Lru.{Lru}
use mvirt.Replica.{Replica}
use mvirt.Response.{Response}
use mvirt.Command.{Command, request_id}
use mvirt.State.{ApiState}
use mvirt.Apply.Outcome.{Handler, done, returned}
use mvirt.Apply.{apply, execute, finish}
use mvirt.Apply.Replay.{apply_fresh}
use mvirt.Apply.Errors.{is_error}
use mvirt.Apply.Answers.{Answers}
use mvirt.Store.Error.{Result, ok, err}
use mvirt.Store.Raft.{Raft, answered, commit_point}
use mvirt.Store.Call.{Store, Codes, reply, send, write_command}
use mvirt.Store.Write.{Write, command_of}
use mvirt.Store.Client.{write, forget, discard}
use mvirt.Store.Call.{written, continue, lift, ◌>>=◌}
use mvirt.Store.Raft.{Written, failed}
use mvirt.Prelude.{◌∙◌}
use mvirt.Store.Node.{
  upsert_node, update_node_status, deregister_node, upsert_node_command, update_node_status_command,
  deregister_node_command,
}
use mvirt.Store.Network.{
  create_network, update_network, delete_network, create_network_command, update_network_command,
  delete_network_command,
}
use mvirt.Store.Nic.{
  create_nic, update_nic, update_nic_status, delete_nic, attach_nic, detach_nic, create_nic_command,
  update_nic_command, update_nic_status_command, delete_nic_command, attach_nic_command,
  detach_nic_command,
}
use mvirt.Store.Vm.{
  update_vm_spec, create_vm, update_vm_status, delete_vm, update_vm_spec_command, create_vm_command,
  update_vm_status_command, delete_vm_command,
}
use mvirt.Store.Org.{
  create_org, update_org, create_project, delete_org, delete_project, create_org_command,
  update_org_command, create_project_command, delete_org_command, delete_project_command,
}
use mvirt.Store.Cluster.{
  create_cluster, update_cluster, add_node_to_cluster, remove_node_from_cluster, delete_cluster,
  create_cluster_command, update_cluster_command, add_node_to_cluster_command,
  remove_node_from_cluster_command, delete_cluster_command,
}
use mvirt.Store.Volume.{
  create_volume, resize_volume, create_snapshot, update_volume_status, delete_volume,
  create_volume_command, resize_volume_command, create_snapshot_command,
  update_volume_status_command, delete_volume_command,
}
use mvirt.Store.Template.{
  create_template, update_template_status, create_template_command, update_template_status_command,
}
use mvirt.Store.SecurityGroup.{
  create_security_group, update_security_group, create_security_group_rule,
  delete_security_group_rule, update_security_group_rule, delete_security_group,
  create_security_group_command, update_security_group_command, create_security_group_rule_command,
  delete_security_group_rule_command, update_security_group_rule_command,
  delete_security_group_command,
}
use mvirt.Store.Onboarding.{
  revoke_node_cert, redeem_onboarding_token, delete_onboarding_token, create_onboarding_token,
  revoke_node_cert_command, redeem_onboarding_token_command, delete_onboarding_token_command,
  create_onboarding_token_command,
}
use mvirt.Store.Account.{
  ensure_account_from_oidc, create_account_by_email, create_membership,
  bootstrap_initial_platform_admin, delete_membership, ensure_account_from_oidc_command,
  create_account_by_email_command, create_membership_command,
  bootstrap_initial_platform_admin_command, delete_membership_command,
}
use mvirt.Store.Service.{
  create_service_account, create_static_api_key, delete_service_account, revoke_static_api_key,
  create_service_account_command, create_static_api_key_command, delete_service_account_command,
  revoke_static_api_key_command,
}
use mvirt.Store.Expected.{expected, execute-expected}

abbrev pub is_ok : {A : Type 0} → Result A → Bool
is_ok (ok a) = true
is_ok (err e) = false

reply-is_ok :
    {A : Type 0} (pick : Response → Option A) (codes : Codes) (r : Response)
    → (is_some (pick r) || is_error r) ≡ true
    → is_ok (reply pick codes r) ≡ not (is_error r)
unfolding reply
reply-is_ok pick codes (Response.error code message) h = refl
reply-is_ok pick codes Response.ack h = ground (arith, h)
reply-is_ok pick codes _ h = ground (arith, h)

module _ ⦃redb : Redb⦄ ⦃lru : Lru⦄ where
  finish-expected :
      (s : ApiState) (cmd : Command) (h : Handler)
      → Answers (expected cmd) h
      → expected cmd (finish s (request_id cmd) h).response ≡ true
  finish-expected s cmd (done a) k = k.holds
  finish-expected s cmd (returned r) k = k.holds

  -- The response to a command that is not in the cache is one that the store expects of it.
  pub apply-expected :
      (replica : Replica) (s : ApiState) (cmd : Command)
      → lru.peek Response s.applied_requests (request_id cmd) ≡ none
      → expected cmd (apply replica s cmd).response ≡ true
  apply-expected replica s cmd fresh =
      rw (apply_fresh replica s cmd fresh)
        (finish-expected s cmd (execute replica s.db cmd) (execute-expected replica s.db cmd))

module _ ⦃redb : Redb⦄ ⦃lru : Lru⦄ ⦃raft : Raft⦄ where
  forget-is_ok : {A : Type 0} (p : Result A × raft.Cluster) → is_ok (forget p).0 ≡ is_ok p.0
  forget-is_ok (ok a, c) = refl
  forget-is_ok (err e, c) = refl

  written-answered :
      (p : Written × raft.Cluster) (r : Response) → p.0 ≡ answered r → written p ≡ (ok r, p.1)
  written-answered (answered q, c) r h = ground (arith, h)
  written-answered (failed text, c) r h = cc

  pub send-answered :
      {A : Type 0} (cmd : Command) (answer : Response → Result A) (c : raft.Cluster) (r : Response)
      → (raft.write_or_forward cmd c).0 ≡ answered r
      → send cmd answer c ≡ (answer r, (raft.write_or_forward cmd c).1)
  unfolding send write_command
  send-answered cmd answer c r h = rw (written-answered (raft.write_or_forward cmd c) r h) refl

  -- A method, called when Raft answers `r`, succeeds exactly if `r` is no error.
  record Agrees {A : Type 0} (m : Store A) (c : raft.Cluster) (r : Response) : Type 0 where
    holds : is_ok (m c).0 ≡ not (is_error r)

  send-Agrees :
      {A : Type 0} (cmd : Command) (pick : Response → Option A) (codes : Codes) (c : raft.Cluster)
      (r : Response)
      → (raft.write_or_forward cmd c).0 ≡ answered r
      → (is_some (pick r) || is_error r) ≡ true
      → Agrees (send cmd (reply pick codes)) c r
  send-Agrees cmd pick codes c r h e = record {
    holds = rw (send-answered cmd (reply pick codes) c r h) (reply-is_ok pick codes r e);
  }

  discard-Agrees :
      {A : Type 0} (m : Store A) (c : raft.Cluster) (r : Response)
      → Agrees m c r
      → Agrees (discard m) c r
  unfolding discard
  discard-Agrees m c r k = record { holds = forget-is_ok (m c) ∙ k.holds }

  continue-is_ok :
      {A B : Type 0} (p : Result A × raft.Cluster) (f : A → B)
      → is_ok (continue p (λ a. lift (ok (f a)))).0 ≡ is_ok p.0
  continue-is_ok (ok a, c) f = refl
  continue-is_ok (err e, c) f = refl

  then-Agrees :
      {A B : Type 0} (m : Store A) (f : A → B) (c : raft.Cluster) (r : Response)
      → Agrees m c r
      → Agrees (m >>= λ a. lift (ok (f a))) c r
  then-Agrees m f c r k = record { holds = continue-is_ok (m c) f ∙ k.holds }

  write-Agrees :
      (w : Write) (c : raft.Cluster) (r : Response)
      → (raft.write_or_forward (command_of w) c).0 ≡ answered r
      → expected (command_of w) r ≡ true
      → Agrees (write w) c r
  unfolding write command_of upsert_node update_node_status create_network update_network create_nic
      update_nic update_nic_status update_vm_spec create_org update_org create_project
      create_cluster update_cluster add_node_to_cluster remove_node_from_cluster create_volume
      resize_volume create_snapshot update_volume_status create_template update_template_status
      create_security_group update_security_group create_security_group_rule
      delete_security_group_rule update_security_group_rule revoke_node_cert redeem_onboarding_token
      ensure_account_from_oidc create_account_by_email create_membership
      bootstrap_initial_platform_admin create_service_account create_static_api_key deregister_node
      delete_network delete_nic attach_nic detach_nic create_vm update_vm_status delete_vm
      delete_org delete_project delete_cluster delete_volume delete_security_group
      delete_onboarding_token delete_membership delete_service_account revoke_static_api_key
      create_onboarding_token upsert_node_command update_node_status_command create_network_command
      update_network_command create_nic_command update_nic_command update_nic_status_command
      update_vm_spec_command create_org_command update_org_command create_project_command
      create_cluster_command update_cluster_command add_node_to_cluster_command
      remove_node_from_cluster_command create_volume_command resize_volume_command
      create_snapshot_command update_volume_status_command create_template_command
      update_template_status_command create_security_group_command update_security_group_command
      create_security_group_rule_command delete_security_group_rule_command
      update_security_group_rule_command revoke_node_cert_command redeem_onboarding_token_command
      ensure_account_from_oidc_command create_account_by_email_command create_membership_command
      bootstrap_initial_platform_admin_command create_service_account_command
      create_static_api_key_command deregister_node_command delete_network_command
      delete_nic_command attach_nic_command detach_nic_command create_vm_command
      update_vm_status_command delete_vm_command delete_org_command delete_project_command
      delete_cluster_command delete_volume_command delete_security_group_command
      delete_onboarding_token_command delete_membership_command delete_service_account_command
      revoke_static_api_key_command create_onboarding_token_command
  write-Agrees (Write.upsert_node f id req) c r h e =
      discard-Agrees _ c r (send-Agrees _ _ _ c r h e)
  write-Agrees (Write.create_onboarding_token crates f req) c r h e =
      discard-Agrees _ c r
        (then-Agrees _ (λ token. (token, f.bare_token)) c r (send-Agrees _ _ _ c r h e))
  write-Agrees _ c r h e = discard-Agrees _ c r (send-Agrees _ _ _ c r h e)

  -- When Raft answers a method that writes one command, and the command was not in the cache, the
  -- method succeeds if the response is no error, and fails if it is one: the response is always
  -- of the kind that the method expects.
  pub write-is_error :
      (w : Write) (c : raft.Cluster) (r : Response)
      → lru.peek Response
          (commit_point (command_of w) c).applied_requests
          (request_id (command_of w))
        ≡ none
      → (raft.write_or_forward (command_of w) c).0 ≡ answered r
      → is_ok (write w c).0 ≡ not (is_error r)
  write-is_error w c r fresh h =
      let cmd : Command = command_of w in
      (write-Agrees w c r h (
        rw (raft.answered_lem cmd c r h).0
          (apply-expected (raft.applier cmd c) (commit_point cmd c) cmd fresh))).holds
