-- ===== src/Apply/Ensures.antt =====
-- What holds of a handler's outcome if it commits, with one rule for each way to build a handler.
use mvirt.Prelude.{none, some, Option, ◌≡◌, refl, Bool, true, false, arith, if◌then◌else◌}
use mvirt.Response.{Response}
use mvirt.Apply.Outcome.{◌>>◌, return_if, some_or, return_existing, Outcome, done, returned, ◌>>=◌}

pub record Ensures {ℓ} {A : Type ℓ} (P : A → Type ℓ) (m : Outcome A) : Type ℓ where
  pub at : (a : A) → m ≡ done a → P a

-- A handler commits, and what holds of what it commits.
pub record Commits {ℓ} {A : Type ℓ} (P : A → Type ℓ) (m : Outcome A) : Type ℓ where
  pub result : A
  pub is_done : m ≡ done result
  pub holds : P result

module _ {ℓ} {A : Type ℓ} {P : A → Type ℓ} where
  pub Ensures-done : (a : A) → P a → Ensures P (done a)
  Ensures-done a p = record { at = λ b e. ground (arith, p) }

  pub Ensures-returned : (r : Response) → Ensures P (returned r)
  Ensures-returned r = record { at = λ b e. cc }

  pub Ensures-if :
      (b : Bool) (m n : Outcome A)
      → (b ≡ true → Ensures P m)
      → (b ≡ false → Ensures P n)
      → Ensures P (if b then m else n)
  Ensures-if true m n km kn = km refl
  Ensures-if false m n km kn = kn refl

module _ {ℓ} {A B : Type ℓ} {P : B → Type ℓ} where
  pub Ensures-bind :
      (m : Outcome A) (f : A → Outcome B)
      → ((a : A) → m ≡ done a → Ensures P (f a))
      → Ensures P (m >>= f)
  Ensures-bind (done a) f k = k a refl
  Ensures-bind (returned r) f k = Ensures-returned r

module _ {ℓ} {B : Type ℓ} {P : B → Type ℓ} (r : Response) where
  -- The rules for the guards: what goes on may use that the guard let it pass.
  pub Ensures-return_if :
      (test : Bool) (k : Outcome B)
      → (test ≡ false → Ensures P k)
      → Ensures P (return_if test r >> k)
  Ensures-return_if true k h = Ensures-returned r
  Ensures-return_if false k h = h refl

  pub Ensures-some_or :
      {A : Type ℓ} (o : Option A) (f : A → Outcome B)
      → ((a : A) → o ≡ some a → Ensures P (f a))
      → Ensures P (some_or o r >>= f)
  Ensures-some_or none f h = Ensures-returned r
  Ensures-some_or (some a) f h = h a refl

module _ {ℓ} {A B : Type ℓ} {P : B → Type ℓ} where
  pub Ensures-return_existing :
      (o : Option A) (r : A → Response) (k : Outcome B)
      → (o ≡ none → Ensures P k)
      → Ensures P (return_existing o r >> k)
  Ensures-return_existing none r k h = h refl
  Ensures-return_existing (some a) r k h = Ensures-returned (r a)

-- The rules by which a handler commits: each guard lets it pass.
module _ {ℓ} {A : Type ℓ} {P : A → Type ℓ} where
  pub Commits-done : (a : A) → P a → Commits P (done a)
  Commits-done a p = record { result = a; is_done = refl; holds = p }

  pub Commits-weaken :
      {Q : A → Type ℓ} (m : Outcome A) → Commits Q m → ((a : A) → Q a → P a) → Commits P m
  Commits-weaken m k next = record {
    result = k.result;
    is_done = k.is_done;
    holds = next k.result k.holds;
  }

  pub Commits-if :
      (b : Bool) (m n : Outcome A)
      → (b ≡ true → Commits P m)
      → (b ≡ false → Commits P n)
      → Commits P (if b then m else n)
  Commits-if true m n km kn = km refl
  Commits-if false m n km kn = kn refl

  pub Commits-return_if :
      (r : Response) (test : Bool) (k : Outcome A)
      → test ≡ false
      → Commits P k
      → Commits P (return_if test r >> k)
  Commits-return_if r true k passes h = cc
  Commits-return_if r false k passes h = h

module _ {ℓ} {A B : Type ℓ} {P : B → Type ℓ} where
  pub Commits-bind :
      {Q : A → Type ℓ} (m : Outcome A) (f : A → Outcome B)
      → Commits Q m
      → ((a : A) → Q a → Commits P (f a))
      → Commits P (m >>= f)
  Commits-bind m f k next = rw k.is_done (next k.result k.holds)

  pub Commits-some_or :
      (r : Response) (o : Option A) (f : A → Outcome B) (a : A)
      → o ≡ some a
      → Commits P (f a)
      → Commits P (some_or o r >>= f)
  Commits-some_or r o f a there h = rw there h

  pub Commits-return_existing :
      (o : Option A) (r : A → Response) (k : Outcome B)
      → o ≡ none
      → Commits P k
      → Commits P (return_existing o r >> k)
  Commits-return_existing o r k gone h = rw gone h

pub ruleset guard_rules = (
  Ensures-done, Ensures-returned, Ensures-if, Ensures-some_or, Ensures-return_if,
  Ensures-return_existing,
)

pub ruleset ensures_rules = (Ensures-done, Ensures-returned, Ensures-if, Ensures-bind)

pub ruleset commit_rules =
    (Commits-done, Commits-if, Commits-return_if, Commits-some_or, Commits-return_existing)
