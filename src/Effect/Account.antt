-- ===== src/Effect/Account.antt =====
-- mvirt-cplane/src/state.rs: the first administrator, and logins.
use mvirt.Prelude.{
  Option, none, some, eq_refl, Option, some, String, ◌≡◌, refl, true, arith, any, Bool-cases, inl,
  inr, ◌||◌, is_some, find, Bool, Option-cases, ◌≢◌, List, Memᴰ, false, eq_iff, sym, ◌∙◌,
}
use mvirt.Redb.{Redb}
use mvirt.Replica.{Replica}
use mvirt.Query.Account.{get_account_by_oidc}
use mvirt.Redb.Txn.Laws.{find-txn_get, find-txn_list_missing, read_list-txn_list}
use mvirt.Redb.Txn.{Table, txn_get, txn_list, txn_put, txn_has, txn_delete}
use mvirt.Redb.Txn.Laws.{
  txn_get-txn_put_self, txn_get-txn_put, txn_get-txn_delete, txn_has-txn_get, any-txn_get,
}
use mvirt.Resource.Account.{AccountData, MembershipData}
use mvirt.Command.{Command}
use mvirt.Lru.{Lru}
use mvirt.Apply.{execute}
use mvirt.Apply.Run.{run, run_keeps_where}
use mvirt.Command.Account.{BootstrapInitialPlatformAdmin, EnsureAccountFromOidc}
use mvirt.Response.{Response}
use mvirt.State.{Tables, ApiState}
use mvirt.Apply.Outcome.{returned}
use mvirt.Apply.Ensures.{Commits, Commits-done, Ensures, ensures_rules, guard_rules, Ensures-bind}
use mvirt.Apply.Onboarding.{apply_redeem_onboarding_token}
use mvirt.Apply.Account.{
  apply_create_account_by_email, apply_bootstrap_initial_platform_admin, is_platform_admin,
  scope_eq, role_eq, apply_ensure_account_from_oidc, is_linked_to, find_invited, differs,
  refresh_account, link_account, add_account, login,
}

module _ ⦃redb : Redb⦄ (db : Tables) where
  there_is_one :
      (d : BootstrapInitialPlatformAdmin)
      → any is_platform_admin (txn_list db.memberships) ≡ true
      → apply_bootstrap_initial_platform_admin db d ≡ returned Response.ack
  unfolding apply_bootstrap_initial_platform_admin
  there_is_one d h = rw h refl

module _ ⦃redb : Redb⦄ where
  -- A membership, by its id, makes a platform administrator.
  pub record IsGranted (k : String) (t : Table MembershipData) : Type 0 where
    pub grant : MembershipData
    pub there : txn_get t k ≡ some grant
    pub admin : is_platform_admin grant ≡ true

  put-IsGranted_self :
      (k : String) (t : Table MembershipData) (m : MembershipData)
      → is_platform_admin m ≡ true
      → IsGranted k (txn_put t k m)
  put-IsGranted_self k t m admin = record {
    grant = m;
    there = txn_get-txn_put_self t k k m refl;
    admin = admin;
  }

  put-IsGranted_other :
      (k j : String) (t : Table MembershipData) (m : MembershipData)
      → j ≢ k
      → IsGranted k t
      → IsGranted k (txn_put t j m)
  put-IsGranted_other k j t m other h = record {
    grant = h.grant;
    there = ground (arith, txn_get-txn_put t j k m, h.there, eq_iff j k, other);
    admin = h.admin;
  }

  put-IsGranted_new :
      (k j : String) (t : Table MembershipData) (m : MembershipData)
      → txn_has t j ≡ false
      → IsGranted k t
      → IsGranted k (txn_put t j m)
  put-IsGranted_new k j t m absent h =
      put-IsGranted_other k j t m
        (λ same. ground (arith, same, absent, h.there, txn_has-txn_get t j)) h

  delete-IsGranted :
      (k j : String) (t : Table MembershipData)
      → j ≢ k
      → IsGranted k t
      → IsGranted k (txn_delete t j)
  delete-IsGranted k j t other h = record {
    grant = h.grant;
    there = ground (arith, txn_get-txn_delete t j k, h.there, eq_iff j k, other);
    admin = h.admin;
  }

  IsGranted-any :
      (k : String) (t : Table MembershipData)
      → IsGranted k t
      → any is_platform_admin (txn_list t) ≡ true
  IsGranted-any k t h = elim (Bool-cases (any is_platform_admin (txn_list t))) [
    | inl found ↦ found
    | inr none_is ↦
        absurd (ground (arith, any-txn_get is_platform_admin t k h.grant none_is h.there, h.admin))
  ]

-- A command that neither takes a membership away nor writes another under its id.
abbrev pub LeavesMembership : String → Command → Type 0
LeavesMembership k (Command.delete_membership c) = c.id ≢ k
LeavesMembership k (Command.create_service_account c) = c.membership_id ≢ k
LeavesMembership k (Command.delete_service_account c) = ⊥
LeavesMembership k _ = Unit {0}

module _ ⦃redb : Redb⦄ (replica : Replica) (db : Tables) where
  execute-IsGranted :
      (k : String) (cmd : Command)
      → LeavesMembership k cmd
      → IsGranted k db.memberships
      → Ensures (λ a. IsGranted k a.0.memberships) (execute replica db cmd)
  unfolding execute apply_redeem_onboarding_token apply_create_account_by_email
      apply_ensure_account_from_oidc apply_bootstrap_initial_platform_admin
  execute-IsGranted k (Command.create_membership c) leaves h =
      search (guard_rules, Ensures-bind, put-IsGranted_new, h) depth 9
  execute-IsGranted k (Command.delete_membership c) leaves h =
      search (guard_rules, Ensures-bind, delete-IsGranted, leaves, h) depth 9
  execute-IsGranted k (Command.create_service_account c) leaves h =
      search (guard_rules, Ensures-bind, put-IsGranted_other, leaves, h) depth 9
  execute-IsGranted k (Command.delete_service_account c) leaves h = absurd leaves
  execute-IsGranted k (Command.bootstrap_initial_platform_admin c) leaves h = record {
    at = λ a e.
        absurd (ground (arith, sym e ∙ there_is_one db c (IsGranted-any k db.memberships h)));
  }
  execute-IsGranted k _ leaves h = search (ensures_rules, h) depth 12

  bootstrapped :
      (c : BootstrapInitialPlatformAdmin)
      → Ensures (λ a. IsGranted c.id a.0.memberships) (apply_bootstrap_initial_platform_admin db c)
  unfolding apply_bootstrap_initial_platform_admin scope_eq role_eq
  bootstrapped c = search (guard_rules, Ensures-bind, put-IsGranted_self) depth 9

module _ ⦃redb : Redb⦄ ⦃lru : Lru⦄ (s : ApiState) where
  -- When a first platform administrator has been made, making a first one again, for whatever
  -- account and after whatever commands, is acknowledged and changes nothing, provided that none of
  -- the commands takes the administrator's membership away, writes another under its id, or
  -- deletes a service account.
  pub bootstrap_once :
      (replica : Replica) (c d : BootstrapInitialPlatformAdmin) (cmds : List (Replica × Command))
      → ((r : Replica) (cmd : Command) → Memᴰ (r, cmd) cmds → LeavesMembership c.id cmd)
      → Ensures
          (λ a.
            apply_bootstrap_initial_platform_admin (run (record s { db = a.0 }) cmds).db d
            ≡ returned Response.ack)
          (apply_bootstrap_initial_platform_admin s.db c)
  bootstrap_once replica c d cmds allowed = record {
    at = λ a e. there_is_one (run (record s { db = a.0 }) cmds).db d (
        IsGranted-any c.id (run (record s { db = a.0 }) cmds).db.memberships (
          run_keeps_where {P = λ db. IsGranted c.id db.memberships}
            (λ r db cmd. execute-IsGranted r db c.id cmd) (record s { db = a.0 }) cmds allowed
            ((bootstrapped replica s.db c).at a e)));
  }

module _ ⦃redb : Redb⦄ (t : Table AccountData) where
  found_after :
      (p : AccountData → Bool) (k : String) (v : AccountData)
      → p v ≡ true
      → is_some (find p (txn_list (txn_put t k v))) ≡ true
  found_after p k v passes = elim (Option-cases (find p (txn_list (txn_put t k v)))) [
    | inl missed ↦ absurd (
        ground (
          arith,
          find-txn_list_missing p (txn_put t k v) k v missed (txn_get-txn_put_self t k k v refl),
          passes,
        ))
    | inr (w, found) ↦ rw found refl
  ]

  refresh_found :
      (c : EnsureAccountFromOidc) (known : AccountData)
      → find (is_linked_to c.iss c.sub) (txn_list t) ≡ some known
      → is_some (find (is_linked_to c.iss c.sub) (txn_list (refresh_account t known c).0)) ≡ true
  unfolding refresh_account
  refresh_found c known e =
      let (k, at_k, passes) = find-txn_get (is_linked_to c.iss c.sub) t known e in
      elim (Bool-cases (differs known.email c.email || differs known.display_name c.display_name)) [
        | inl changed ↦
            rw (changed, refresh_account) (found_after (is_linked_to c.iss c.sub) known.id _ passes)
        | inr same ↦ rw (same, refresh_account, e) refl
      ]

  login_found :
      (c : EnsureAccountFromOidc) (known invited : Option AccountData)
      → find (is_linked_to c.iss c.sub) (txn_list t) ≡ known
      → is_some (find (is_linked_to c.iss c.sub) (txn_list (login t known invited c).0)) ≡ true
  unfolding login link_account add_account
  login_found c (some known) invited e = refresh_found c known e
  login_found c none (some invited) e =
      found_after (is_linked_to c.iss c.sub) invited.id _
        (ground (arith, eq_refl c.iss, eq_refl c.sub))
  login_found c none none e =
      found_after (is_linked_to c.iss c.sub) c.new_id _
        (ground (arith, eq_refl c.iss, eq_refl c.sub))

module _ ⦃redb : Redb⦄ (db : Tables) where
  -- Every login commits, and leaves its identity among the accounts, whether it was known, belonged
  -- to an account invited by email, or was new.
  pub get_account_by_oidc-login :
      (replica : Replica) (c : EnsureAccountFromOidc)
      → Commits
          (λ a. is_some (get_account_by_oidc a.0 c.iss c.sub) ≡ true)
          (apply_ensure_account_from_oidc db replica c)
  unfolding apply_ensure_account_from_oidc get_account_by_oidc
  get_account_by_oidc-login replica c =
      let known = find (is_linked_to c.iss c.sub) (txn_list db.accounts) in
      let invited = find_invited replica (txn_list db.accounts) c.email in
      Commits-done _ (
        rw (read_list-txn_list (login db.accounts known invited c).0)
          (login_found db.accounts c known invited refl))
