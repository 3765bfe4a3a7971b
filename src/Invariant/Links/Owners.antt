-- ===== src/Invariant/Links/Owners.antt =====
-- The account of a membership and of an API key.
use mvirt.Prelude.{
  inr, inl, ◌==◌, ◌||◌, keep, sym, true, Bool-cases, ◌∙◌, ap, is_some, String, ◌≡◌, Option, none,
  some, arith,
}
use mvirt.Redb.{Redb}
use mvirt.Redb.Txn.{txn_list, txn_delete, Table, txn_get, txn_put}
use mvirt.Replica.{Replica}
use mvirt.State.{Tables}
use mvirt.Command.Account.{EnsureAccountFromOidc}
use mvirt.Redb.Keyed.{IsKeyed, put-IsKeyed, delete-IsKeyed}
use mvirt.Redb.Txn.{delete_rows}
use mvirt.Redb.Txn.Rows.{txn_get-delete_rows-keep}
use mvirt.Command.{Command}
use mvirt.Apply.{execute}
use mvirt.Apply.Ensures.{Ensures, ensures_rules, guard_rules, Ensures-bind}
use mvirt.Redb.Linked.{
  IsLinked, IsLinked-put_target, IsLinked-put_source, IsLinked-change_source,
  IsLinked-delete_source, IsLinked-delete_rows, IsLinked-delete_target,
}
use mvirt.Resource.Account.{AccountData, MembershipData, ApiKeyData}
use mvirt.Apply.Onboarding.{apply_redeem_onboarding_token}
use mvirt.Apply.Account.{
  login, refresh_account, link_account, add_account, differs, apply_create_account_by_email,
  apply_ensure_account_from_oidc, apply_bootstrap_initial_platform_admin,
}
use package.mvirt.Invariant.Links.Targets.{has_key, found_key, put_key}

module _ ⦃redb : Redb⦄ where
  -- Rows that belong to an account stand under their ids, and their account exists.
  pub record AreOwned {N : Type 0} (id_of owner : N → String) (accounts : Table AccountData)
      (rows : Table N) : Type 0 where
    pub keyed : IsKeyed id_of rows
    pub linked : IsLinked (λ n. some (owner n)) accounts rows

  abbrev pub MembershipsOwned : Table AccountData → Table MembershipData → Type 0
  MembershipsOwned = AreOwned (λ m. m.id) (λ m. m.account_id)

  abbrev pub KeysOwned : Table AccountData → Table ApiKeyData → Type 0
  KeysOwned = AreOwned (λ k. k.id) (λ k. k.account_id)

module _ ⦃redb : Redb⦄ {N : Type 0} (id_of owner : N → String) {accounts : Table AccountData}
    {rows : Table N} (h : AreOwned id_of owner accounts rows) where
  AreOwned-put_account :
      (id : String) (a : AccountData) → AreOwned id_of owner (txn_put accounts id a) rows
  AreOwned-put_account id a = record {
    keyed = h.keyed;
    linked = IsLinked-put_target _ h.linked id a;
  }

  AreOwned-new :
      (k : String) (n : N)
      → id_of n ≡ k
      → ((j : String) → some (owner n) ≡ some j → is_some (txn_get accounts j) ≡ true)
      → AreOwned id_of owner accounts (txn_put rows k n)
  AreOwned-new k n same good = record {
    keyed = put-IsKeyed _ rows k n same h.keyed;
    linked = IsLinked-put_source _ h.linked k n good;
  }

  -- A new account with a first row of its own.
  AreOwned-new_account :
      (id k : String) (a : AccountData) (n : N)
      → id_of n ≡ k
      → owner n ≡ id
      → AreOwned id_of owner (txn_put accounts id a) (txn_put rows k n)
  AreOwned-new_account id k a n same_id same = record {
    keyed = put-IsKeyed _ rows k n same_id h.keyed;
    linked =
        IsLinked-put_source _ (IsLinked-put_target _ h.linked id a) k n
          λ j e. put_key accounts id j a (ap some (sym same) ∙ e);
  }

  AreOwned-change :
      (k : String) (n old : N)
      → txn_get rows k ≡ some old
      → id_of n ≡ id_of old
      → owner n ≡ owner old
      → AreOwned id_of owner accounts (txn_put rows k n)
  AreOwned-change k n old found same_id same = record {
    keyed = put-IsKeyed _ rows k n (same_id ∙ h.keyed.at k old found) h.keyed;
    linked = IsLinked-change_source _ h.linked k n old found (ap some same);
  }

  AreOwned-delete : (k : String) → AreOwned id_of owner accounts (txn_delete rows k)
  AreOwned-delete k = record {
    keyed = delete-IsKeyed _ rows k h.keyed;
    linked = IsLinked-delete_source _ h.linked k;
  }

  -- An account goes with all that belongs to it.
  AreOwned-delete_account :
      (id : String)
      → AreOwned id_of owner
          (txn_delete accounts id)
          (delete_rows id_of rows (keep (λ n. owner n == id) (txn_list rows)))
  AreOwned-delete_account id = record {
    keyed = record {
      at = λ k n at_k. ground (
        arith,
        h.keyed.at k n,
        txn_get-delete_rows-keep id_of rows h.keyed (λ x. owner x == id) k,
      );
    };
    linked =
        IsLinked-delete_target _
          (IsLinked-delete_rows _ h.linked id_of (keep (λ n. owner n == id) (txn_list rows))) id
          λ k n at_k.
            ground (arith, txn_get-delete_rows-keep id_of rows h.keyed (λ x. owner x == id) k);
  }

  AreOwned-login :
      (known invited : Option AccountData) (c : EnsureAccountFromOidc)
      → AreOwned id_of owner (login accounts known invited c).0 rows
  unfolding login refresh_account link_account add_account
  AreOwned-login (some a) invited c =
      elim (Bool-cases (differs a.email c.email || differs a.display_name c.display_name)) [
        | inl changed ↦ rw changed (AreOwned-put_account a.id _)
        | inr same ↦ rw same h
      ]
  AreOwned-login none (some a) c = AreOwned-put_account a.id _
  AreOwned-login none none c = AreOwned-put_account c.new_id _

module _ ⦃redb : Redb⦄ (replica : Replica) (db : Tables) where
  -- If a command commits, memberships stand under their ids and the account of each is there, as
  -- they did before.
  pub execute-MembershipsOwned :
      (cmd : Command)
      → MembershipsOwned db.accounts db.memberships
      → Ensures (λ a. MembershipsOwned a.0.accounts a.0.memberships) (execute replica db cmd)
  unfolding execute apply_redeem_onboarding_token apply_create_account_by_email
      apply_ensure_account_from_oidc apply_bootstrap_initial_platform_admin
  execute-MembershipsOwned (Command.create_account_by_email c) h =
      search (guard_rules, AreOwned-put_account _ _ h) depth 9
  execute-MembershipsOwned (Command.ensure_account_from_oidc c) h =
      search (guard_rules, AreOwned-login _ _ h) depth 9
  execute-MembershipsOwned (Command.create_membership c) h =
      search (guard_rules, Ensures-bind, AreOwned-new _ _ h, has_key) depth 9
  execute-MembershipsOwned (Command.delete_membership c) h =
      search (guard_rules, AreOwned-delete _ _ h) depth 9
  execute-MembershipsOwned (Command.bootstrap_initial_platform_admin c) h =
      search (guard_rules, AreOwned-new _ _ h, has_key) depth 9
  execute-MembershipsOwned (Command.create_service_account c) h =
      search (guard_rules, AreOwned-new_account _ _ h) depth 9
  execute-MembershipsOwned (Command.delete_service_account c) h =
      search (guard_rules, AreOwned-delete_account _ _ h) depth 9
  execute-MembershipsOwned _ h = search (ensures_rules, h) depth 12

  -- If a command commits, API keys stand under their ids and the account of each is there, as they
  -- did before.
  pub execute-KeysOwned :
      (cmd : Command)
      → KeysOwned db.accounts db.api_keys
      → Ensures (λ a. KeysOwned a.0.accounts a.0.api_keys) (execute replica db cmd)
  unfolding execute apply_redeem_onboarding_token apply_create_account_by_email
      apply_ensure_account_from_oidc apply_bootstrap_initial_platform_admin
  execute-KeysOwned (Command.create_account_by_email c) h =
      search (guard_rules, AreOwned-put_account _ _ h) depth 9
  execute-KeysOwned (Command.ensure_account_from_oidc c) h =
      search (guard_rules, AreOwned-login _ _ h) depth 9
  execute-KeysOwned (Command.create_service_account c) h =
      search (guard_rules, AreOwned-put_account _ _ h) depth 9
  execute-KeysOwned (Command.create_static_api_key c) h =
      search (guard_rules, AreOwned-new _ _ h, found_key) depth 9
  execute-KeysOwned (Command.revoke_static_api_key c) h =
      search (guard_rules, AreOwned-change _ _ h, h) depth 9
  execute-KeysOwned (Command.delete_service_account c) h =
      search (guard_rules, AreOwned-delete_account _ _ h) depth 9
  execute-KeysOwned _ h = search (ensures_rules, h) depth 12
