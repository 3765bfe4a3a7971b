-- ===== src/Apply/Outcome.antt =====
-- The control flow of a command handler of mvirt-cplane/src/state.rs: it commits its transaction
-- and goes on to the cache, or returns early, which drops the transaction.
use mvirt.Prelude.{Bool, true, false, Option, none, some, List}
use mvirt.Response.{Response, Event}
use mvirt.Redb.{Redb}
use mvirt.State.{Tables}

pub data Outcome {ℓ} (A : Type ℓ) : Type ℓ where
  done : A → Outcome A
  returned : Response → Outcome A

infixl 5 ◌>>=◌ ◌>>◌
abbrev pub ◌>>=◌ {ℓ κ} : {A : Type ℓ} {B : Type κ} → Outcome A → (A → Outcome B) → Outcome B
done a >>= f = f a
returned r >>= f = returned r

abbrev pub ◌>>◌ {ℓ} : {B : Type ℓ} → Outcome (Unit {0}) → Outcome B → Outcome B
m >> k = m >>= λ _. k

-- `if test { return r }`.
abbrev pub return_if : Bool → Response → Outcome (Unit {0})
return_if true r = returned r
return_if false r = done tt

-- `let Some(a) = found else { return r }`.
abbrev pub some_or {ℓ} : {A : Type ℓ} → Option A → Response → Outcome A
some_or none r = returned r
some_or (some a) r = done a

-- `if let Some(existing) = found { return r(existing) }`.
abbrev pub return_existing {ℓ} : {A : Type ℓ} → Option A → (A → Response) → Outcome (Unit {0})
return_existing none r = done tt
return_existing (some a) r = returned (r a)

-- What a handler that commits hands on: the tables, the response and the events.
module _ ⦃redb : Redb⦄ where
  abbrev pub Handler : Type 0
  Handler = Outcome (Tables × Response × List Event)
