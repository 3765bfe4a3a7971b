-- ===== src/Apply/Agree.antt =====
-- mvirt-cplane/src/state.rs against the rule at the head of mvirt-cplane/src/command.rs, that `apply`
-- does the same on every replica: for which commands it is kept, and for which it is not.
use mvirt.Prelude.{
  ◌≡◌, refl, ap, ◌∙◌, Bool, true, false, List, [], ◌∷◌, any, not, ◌||◌, map, Option-cases, inl, inr,
}
use mvirt.Redb.{Redb}
use mvirt.Lru.{Lru}
use mvirt.Replica.{Replica}
use mvirt.Response.{Response}
use mvirt.Command.{Command, request_id}
use mvirt.State.{Tables, ApiState}
use package.mvirt.Apply.{apply, execute, finish}
use mvirt.Apply.Run.{run}
use mvirt.Apply.Replay.{apply_fresh, apply_cached}
use mvirt.Apply.Account.{apply_create_account_by_email, apply_ensure_account_from_oidc}

-- The commands whose handlers read neither the clock nor random numbers.
abbrev pub is_deterministic : Command → Bool
is_deterministic (Command.delete_vm c) = false
is_deterministic (Command.redeem_onboarding_token c) = false
is_deterministic _ = true

both_false : (x y : Bool) → (x || y) ≡ false → (x ≡ false) × (y ≡ false)
both_false false y h = (refl, h)
both_false true y h = cc

is_true : (x : Bool) → not x ≡ false → x ≡ true
is_true true h = refl
is_true false h = cc

-- Two replicas whose standard libraries treat texts alike.
pub record TreatTextsAlike (a b : Replica) : Type 0 where
  pub trim : a.trim ≡ b.trim
  pub to_lowercase : a.to_lowercase ≡ b.to_lowercase

module _ ⦃redb : Redb⦄ (a b : Replica) (alike : TreatTextsAlike a b) where
  execute_agree :
      (db : Tables) (cmd : Command)
      → is_deterministic cmd ≡ true
      → execute a db cmd ≡ execute b db cmd
  unfolding execute apply_create_account_by_email apply_ensure_account_from_oidc
  execute_agree db (Command.delete_vm c) h = cc
  execute_agree db (Command.redeem_onboarding_token c) h = cc
  execute_agree db (Command.create_account_by_email c) h = λ i.
      apply_create_account_by_email db
        (record a { trim = alike.trim i; to_lowercase = alike.to_lowercase i }) c
  execute_agree db (Command.ensure_account_from_oidc c) h = λ i.
      apply_ensure_account_from_oidc db
        (record a { trim = alike.trim i; to_lowercase = alike.to_lowercase i }) c
  execute_agree db _ h = refl

  module _ ⦃lru : Lru⦄ where
    apply_agree :
        (s : ApiState) (cmd : Command) → is_deterministic cmd ≡ true → apply a s cmd ≡ apply b s cmd
    unfolding apply
    apply_agree s cmd h =
        elim (Option-cases (lru.peek Response s.applied_requests (request_id cmd))) [
          | inl fresh ↦
              rw (apply_fresh a s cmd fresh, apply_fresh b s cmd fresh)
                (ap (finish s (request_id cmd)) (execute_agree s.db cmd h))
          | inr (r, cached) ↦ rw (apply_cached a s cmd r cached, apply_cached b s cmd r cached) refl
        ]

    -- Two replicas that begin in the same state and apply the same commands end in the same state,
    -- cache included, provided that none of the commands deletes a VM or redeems a token, and that
    -- the replicas treat texts alike.
    pub run_agree :
        (s : ApiState) (cmds : List Command)
        → any (λ cmd. not (is_deterministic cmd)) cmds ≡ false
        → run s (map (λ cmd. (a, cmd)) cmds) ≡ run s (map (λ cmd. (b, cmd)) cmds)
    unfolding run any
    run_agree s [] h = refl
    run_agree s (cmd ∷ rest) h =
        let (first, later) = both_false (not (is_deterministic cmd)) _ h in
        ap (λ x. run x.state (map (λ c. (a, c)) rest)) (apply_agree s cmd (is_true _ first))
        ∙ run_agree (apply b s cmd).state rest later
