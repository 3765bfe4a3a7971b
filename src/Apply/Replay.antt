-- ===== src/Apply/Replay.antt =====
-- The idempotency cache: what a command does that has been applied before.
use mvirt.Prelude.{◌≡◌, refl, some, none, [], Option-cases, inl, inr}
use mvirt.Redb.{Redb}
use mvirt.Lru.{Lru}
use mvirt.Replica.{Replica}
use mvirt.Response.{Response}
use mvirt.Command.{Command, request_id}
use mvirt.State.{ApiState}
use mvirt.Apply.Outcome.{Handler, done, returned}
use package.mvirt.Apply.{Applied, apply, execute, finish}

module _ ⦃redb : Redb⦄ ⦃lru : Lru⦄ where
  -- A command whose request is in the cache gets the cached answer and does nothing.
  pub apply_cached :
      (replica : Replica) (s : ApiState) (cmd : Command) (r : Response)
      → lru.peek Response s.applied_requests (request_id cmd) ≡ some r
      → apply replica s cmd ≡ record { state = s; response = r; events = [] }
  unfolding apply
  apply_cached replica s cmd r h = rw (h, apply)

  pub apply_fresh :
      (replica : Replica) (s : ApiState) (cmd : Command)
      → lru.peek Response s.applied_requests (request_id cmd) ≡ none
      → apply replica s cmd ≡ finish s (request_id cmd) (execute replica s.db cmd)
  unfolding apply
  apply_fresh replica s cmd h = rw (h, apply)

  -- What applying the command again gives.
  abbrev again : Applied → Applied
  again a = record { state = a.state; response = a.response; events = [] }

  finish-again :
      (replica : Replica) (s : ApiState) (cmd : Command) (h : Handler)
      → lru.peek Response s.applied_requests (request_id cmd) ≡ none
      → execute replica s.db cmd ≡ h
      → apply replica (finish s (request_id cmd) h).state cmd ≡ again (finish s (request_id cmd) h)
  finish-again replica s cmd (returned r) fresh e = rw (apply_fresh replica s cmd fresh, e)
  finish-again replica s cmd (done (db, r, events)) fresh e =
      apply_cached replica _ cmd r
        (lru.peek-put_self Response s.applied_requests (request_id cmd) r)

  -- Applying a command a second time, on the state that the first left, changes nothing, gives the
  -- answer that the first gave, and emits no event, whether the first was answered from the cache,
  -- committed, or returned early.
  pub apply_twice :
      (replica : Replica) (s : ApiState) (cmd : Command)
      → apply replica (apply replica s cmd).state cmd ≡ record {
        state = (apply replica s cmd).state;
        response = (apply replica s cmd).response;
        events = [];
      }
  apply_twice replica s cmd =
      elim (Option-cases (lru.peek Response s.applied_requests (request_id cmd))) [
        | inl fresh ↦
            rw (apply_fresh replica s cmd fresh)
              (finish-again replica s cmd (execute replica s.db cmd) fresh refl)
        | inr (r, cached) ↦
            rw (apply_cached replica s cmd r cached) (apply_cached replica s cmd r cached)
      ]
