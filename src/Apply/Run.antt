-- ===== src/Apply/Run.antt =====
-- A history of commands, each applied by some replica.
use mathlib.Core.List.Memᴰ.{head, tail}
use mvirt.Prelude.{
  String, ℕ, suc, ◌+◌, ◌<◌, ◌^◌, ◌≡◌, refl, List, [], ◌∷◌, length, Option-cases, inl, inr, arith,
  Memᴰ,
}
use mvirt.Redb.{Redb}
use mvirt.Lru.{Lru}
use mvirt.Replica.{Replica}
use mvirt.Response.{Response}
use mvirt.Command.{Command, request_id}
use mvirt.State.{Tables, ApiState}
use mvirt.Apply.Outcome.{Handler, done, returned}
use mvirt.Apply.Ensures.{Ensures}
use package.mvirt.Apply.{apply, execute, finish}
use mvirt.Apply.Replay.{apply_fresh, apply_cached}

module _ ⦃redb : Redb⦄ ⦃lru : Lru⦄ where
  unfoldable pub run : ApiState → List (Replica × Command) → ApiState
  run s [] = s
  run s ((replica, cmd) ∷ rest) = run (apply replica s cmd).state rest

module _ ⦃redb : Redb⦄ {P : ℕ → Tables → Type 0}
    (more : (b : ℕ) (db : Tables) → P b db → P (suc b) db)
    (step : (replica : Replica) (b : ℕ) (db : Tables) (cmd : Command)
      → suc b < 2 ^ 32
      → P b db
      → Ensures (λ a. P (suc b) a.0) (execute replica db cmd)) where
  module _ ⦃lru : Lru⦄ where
    finish_step :
        (b : ℕ) (s : ApiState) (cmd : Command) (h : Handler)
        → Ensures (λ a. P (suc b) a.0) h
        → P b s.db
        → P (suc b) (finish s (request_id cmd) h).state.db
    finish_step b s cmd (returned r) k p = more b s.db p
    finish_step b s cmd (done a) k p = k.at a refl

    -- What every handler keeps, `apply` keeps, whatever the cache holds.
    pub apply_step :
        (replica : Replica) (b : ℕ) (s : ApiState) (cmd : Command)
        → suc b < 2 ^ 32
        → P b s.db
        → P (suc b) (apply replica s cmd).state.db
    apply_step replica b s cmd fits p =
        elim (Option-cases (lru.peek Response s.applied_requests (request_id cmd))) [
          | inl fresh ↦
              rw (apply_fresh replica s cmd fresh)
                (finish_step b s cmd (execute replica s.db cmd) (step replica b s.db cmd fits p) p)
          | inr (r, cached) ↦ rw (apply_cached replica s cmd r cached) (more b s.db p)
        ]

    pub run_induction :
        (b : ℕ) (s : ApiState) (cmds : List (Replica × Command))
        → b + length cmds < 2 ^ 32
        → P b s.db
        → P (b + length cmds) (run s cmds).db
    unfolding run
    run_induction b s [] fits p = let e : b + 0 ≡ b = omega arith in rw e p
    run_induction b s ((replica, cmd) ∷ rest) fits p =
        let e : b + suc (length rest) ≡ suc b + length rest = omega arith in
        rw e (
          run_induction (suc b) (apply replica s cmd).state rest (omega arith)
            (apply_step replica b s cmd (omega arith) p))

module _ ⦃redb : Redb⦄ ⦃lru : Lru⦄ {P : Tables → Type 0}
    (step : (replica : Replica) (db : Tables) (cmd : Command)
      → P db
      → Ensures (λ a. P a.0) (execute replica db cmd)) where
  -- A property that needs no bound on the number of commands.
  pub run_keeps : (s : ApiState) (cmds : List (Replica × Command)) → P s.db → P (run s cmds).db
  unfolding run
  run_keeps s [] p = p
  run_keeps s ((replica, cmd) ∷ rest) p = run_keeps (apply replica s cmd).state rest (
      apply_step {P = λ b. P} (λ b db q. q) (λ r b db c fits. step r db c) replica 0 s cmd
        (omega arith) p)

module _ ⦃redb : Redb⦄ ⦃lru : Lru⦄ {P : Tables → Type 0} {Q : Command → Type 0}
    (step : (replica : Replica) (db : Tables) (cmd : Command)
      → Q cmd
      → P db
      → Ensures (λ a. P a.0) (execute replica db cmd)) where
  finish_where :
      (s : ApiState) (id : String) (h : Handler)
      → Ensures (λ a. P a.0) h
      → P s.db
      → P (finish s id h).state.db
  finish_where s id (returned r) k p = p
  finish_where s id (done a) k p = k.at a refl

  step_where :
      (replica : Replica) (s : ApiState) (cmd : Command)
      → Q cmd
      → P s.db
      → P (apply replica s cmd).state.db
  step_where replica s cmd allowed p =
      elim (Option-cases (lru.peek Response s.applied_requests (request_id cmd))) [
        | inl fresh ↦ rw (apply_fresh replica s cmd fresh) (
            finish_where s (request_id cmd) (execute replica s.db cmd)
              (step replica s.db cmd allowed p) p)
        | inr (r, cached) ↦ rw (apply_cached replica s cmd r cached) p
      ]

  -- A property that some commands keep.
  pub run_keeps_where :
      (s : ApiState) (cmds : List (Replica × Command))
      → ((replica : Replica) (cmd : Command) → Memᴰ (replica, cmd) cmds → Q cmd)
      → P s.db
      → P (run s cmds).db
  unfolding run
  run_keeps_where s [] allowed p = p
  run_keeps_where s ((replica, cmd) ∷ rest) allowed p =
      run_keeps_where (apply replica s cmd).state rest (λ r c later. allowed r c (tail later))
        (step_where replica s cmd (allowed replica cmd (head refl)) p)
