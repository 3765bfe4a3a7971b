-- ===== src/Apply/Errors.antt =====
-- Errors and early returns: what they leave alone.
use mvirt.Prelude.{◌≡◌, refl, Bool, true, false, List, [], none, arith}
use mvirt.Redb.{Redb}
use mvirt.Lru.{Lru}
use mvirt.Replica.{Replica}
use mvirt.Response.{Response, Event}
use mvirt.Command.{Command, request_id}
use mvirt.State.{Tables, ApiState}
use mvirt.Apply.Outcome.{Handler, done, returned}
use mvirt.Apply.Ensures.{Ensures, ensures_rules}
use package.mvirt.Apply.{apply, execute, finish}
use mvirt.Apply.Replay.{apply_fresh}
use mvirt.Apply.Onboarding.{apply_redeem_onboarding_token}
use mvirt.Apply.Account.{
  apply_create_account_by_email, apply_ensure_account_from_oidc,
  apply_bootstrap_initial_platform_admin,
}

abbrev pub is_error : Response → Bool
is_error (Response.error c m) = true
is_error _ = false

module _ ⦃redb : Redb⦄ where
  abbrev Answers : Tables × Response × List Event → Type 0
  Answers a = is_error a.1 ≡ false

  -- A handler that commits does not answer with an error.
  execute-Answers :
      (replica : Replica) (db : Tables) (cmd : Command) → Ensures Answers (execute replica db cmd)
  unfolding execute apply_redeem_onboarding_token apply_create_account_by_email
      apply_ensure_account_from_oidc apply_bootstrap_initial_platform_admin
  execute-Answers replica db (Command.register_node c) = search ensures_rules
  execute-Answers replica db _ = search ensures_rules depth 10

module _ ⦃redb : Redb⦄ ⦃lru : Lru⦄ where
  finish_error :
      (s : ApiState) (cmd : Command) (h : Handler)
      → Ensures Answers h
      → is_error (finish s (request_id cmd) h).response ≡ true
      → ((finish s (request_id cmd) h).state ≡ s) × ((finish s (request_id cmd) h).events ≡ [])
  finish_error s cmd (returned r) k e = (refl, refl)
  finish_error s cmd (done a) k e = ground (arith, k.at a refl)

  -- A command that is not in the cache and is answered with an error leaves the whole state, the
  -- cache included, as it was, and emits no event: it can be sent again under the same request id.
  pub apply_error :
      (replica : Replica) (s : ApiState) (cmd : Command)
      → lru.peek Response s.applied_requests (request_id cmd) ≡ none
      → is_error (apply replica s cmd).response ≡ true
      → ((apply replica s cmd).state ≡ s) × ((apply replica s cmd).events ≡ [])
  apply_error replica s cmd fresh =
      rw (apply_fresh replica s cmd fresh)
        (finish_error s cmd (execute replica s.db cmd) (execute-Answers replica s.db cmd))
