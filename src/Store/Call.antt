-- ===== src/Store/Call.antt =====
-- mvirt-cplane/src/store/raft_store.rs: how a method of the store reads the state of its node,
-- writes a command through Raft, and turns the response into a result.
use mvirt.Prelude.{ℕ, String, Option, none, some, List, [], ◌∷◌, nat_eq, if◌then◌else◌}
use mvirt.Redb.{Redb}
use mvirt.Lru.{Lru}
use mvirt.Response.{Response}
use mvirt.Command.{Command}
use mvirt.State.{Tables, ApiState}
use mvirt.Store.Error.{StoreError, Result, ok, err}
use mvirt.Store.Raft.{Raft, Written, answered, failed}

-- What a call takes from its clock and its random numbers: the id of its request, two new ids in
-- their two forms, and the time, now and so many seconds later.
pub record Fresh : Type 0 where
  pub request_id : String
  pub uuid : String
  pub simple : String
  pub simple_membership : String
  pub now : String
  pub later : ℕ → String
  pub bare_token : String
  pub short_id : String

-- The arms for the codes of an error response; any other code is internal.
abbrev pub Codes : Type 0
Codes = List (ℕ × (String → StoreError))

unfoldable pub by_code : Codes → ℕ → String → StoreError
by_code [] code message = StoreError.internal message
by_code ((k, e) ∷ rest) code message =
    if nat_eq code k then e message else by_code rest code message

abbrev pub error_of : Response → Option (ℕ × String)
error_of (Response.error code message) = some (code, message)
error_of _ = none

-- An arm that expects a response.
abbrev pub expect : {A : Type 0} → Option A → Result A
expect none = err (StoreError.internal "unexpected response")
expect (some a) = ok a

-- `found.ok_or(e)`.
abbrev pub ok_or : {A : Type 0} → Option A → StoreError → Result A
ok_or none e = err e
ok_or (some a) e = ok a

-- The `match` on a response: the arms for errors, and the arm for what the method expects.
unfoldable pub reply : {A : Type 0} → (Response → Option A) → Codes → Response → Result A
unfolding by_code
reply pick codes r = elim (error_of r) [
  | some (code, message) ↦ err (by_code codes code message)
  | none ↦ expect (pick r)
]

module _ ⦃redb : Redb⦄ ⦃lru : Lru⦄ ⦃raft : Raft⦄ where
  abbrev pub Store : Type 0 → Type 0
  Store A = raft.Cluster → Result A × raft.Cluster

  abbrev pub continue :
      {A B : Type 0} → Result A × raft.Cluster → (A → Store B) → Result B × raft.Cluster
  continue (ok a, c) f = f a c
  continue (err e, c) f = (err e, c)

  infixl 5 ◌>>=◌
  abbrev pub ◌>>=◌ : {A B : Type 0} → Store A → (A → Store B) → Store B
  ◌>>=◌ m f c = continue (m c) f

  abbrev pub or_else : {A : Type 0} → Option A → Store A → Store A
  or_else none m c = m c
  or_else (some a) m c = (ok a, c)

  abbrev pub lift : {A : Type 0} → Result A → Store A
  lift r c = (r, c)

  -- `Ok(query(state))`.
  unfoldable pub read : {A : Type 0} → (Tables → A) → Store A
  read query c = (ok (query (raft.get_state c).db), c)

  abbrev pub written : Written × raft.Cluster → Result Response × raft.Cluster
  written (answered r, c) = (ok r, c)
  written (failed text, c) = (err (StoreError.internal text), c)

  unfoldable pub write_command : Command → Store Response
  write_command cmd c = written (raft.write_or_forward cmd c)

  -- `match self.write_command(cmd).await? { .. }`.
  unfoldable pub send : {A : Type 0} → Command → (Response → Result A) → Store A
  unfolding write_command
  send cmd answer = do r ← write_command cmd; lift (answer r)

  -- `submit` and `snapshot`, by which the reconcilers write and read.
  unfoldable pub submit : Command → Store Response
  unfolding write_command
  submit cmd = write_command cmd

  unfoldable pub snapshot : Store ApiState
  snapshot c = (ok (raft.get_state c), c)
