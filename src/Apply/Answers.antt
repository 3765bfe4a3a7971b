-- ===== src/Apply/Answers.antt =====
-- What holds of every response of a handler, whether it commits or returns early, with one rule for
-- each way to build a handler.
use mvirt.Prelude.{Bool, true, false, ◌≡◌, refl, none, some, Option, List, arith, if◌then◌else◌}
use mvirt.Redb.{Redb}
use mvirt.Response.{Response, Event}
use mvirt.State.{Tables}
use mvirt.Apply.Outcome.{
  Outcome, Handler, done, returned, return_if, some_or, return_existing, ◌>>=◌,
}

-- Every early return of a part of a handler passes the test.
pub record Returns {A : Type 0} (ok : Response → Bool) (m : Outcome A) : Type 0 where
  pub at : (r : Response) → m ≡ returned r → ok r ≡ true

module _ {A : Type 0} {ok : Response → Bool} where
  pub Returns-done : (a : A) → Returns {A = A} ok (done a)
  Returns-done a = record { at = λ r e. cc }

  pub Returns-returned : (r : Response) → ok r ≡ true → Returns {A = A} ok (returned r)
  Returns-returned r p = record { at = λ s e. ground (arith, p) }

  pub Returns-if :
      (b : Bool) (m n : Outcome A) → Returns ok m → Returns ok n → Returns ok (if b then m else n)
  Returns-if true m n km kn = km
  Returns-if false m n km kn = kn

  pub Returns-some_or : (o : Option A) (r : Response) → ok r ≡ true → Returns ok (some_or o r)
  Returns-some_or none r p = Returns-returned r p
  Returns-some_or (some a) r p = Returns-done a

module _ {A B : Type 0} {ok : Response → Bool} where
  pub Returns-bind :
      (m : Outcome A) (f : A → Outcome B)
      → Returns ok m
      → ((a : A) → Returns ok (f a))
      → Returns ok (m >>= f)
  Returns-bind (done a) f k next = next a
  Returns-bind (returned r) f k next = Returns-returned r (k.at r refl)

module _ {ok : Response → Bool} where
  pub Returns-return_if : (b : Bool) (r : Response) → ok r ≡ true → Returns ok (return_if b r)
  Returns-return_if true r p = Returns-returned r p
  Returns-return_if false r p = Returns-done tt

  pub Returns-return_existing :
      {A : Type 0} (o : Option A) (r : A → Response)
      → ((a : A) → ok (r a) ≡ true)
      → Returns ok (return_existing o r)
  Returns-return_existing none r p = Returns-done tt
  Returns-return_existing (some a) r p = Returns-returned (r a) (p a)

module _ ⦃redb : Redb⦄ (ok : Response → Bool) where
  -- The response of a handler.
  abbrev pub response_of : Handler → Response
  response_of (done a) = a.1
  response_of (returned r) = r

  pub record Answers (h : Handler) : Type 0 where
    pub holds : ok (response_of h) ≡ true

module _ ⦃redb : Redb⦄ {ok : Response → Bool} where
  pub Answers-done : (a : Tables × Response × List Event) → ok a.1 ≡ true → Answers ok (done a)
  Answers-done a p = record { holds = p }

  pub Answers-returned : (r : Response) → ok r ≡ true → Answers ok (returned r)
  Answers-returned r p = record { holds = p }

  pub Answers-if :
      (b : Bool) (m n : Handler) → Answers ok m → Answers ok n → Answers ok (if b then m else n)
  Answers-if true m n km kn = km
  Answers-if false m n km kn = kn

  pub Answers-bind :
      {A : Type 0} (m : Outcome A) (f : A → Handler)
      → Returns ok m
      → ((a : A) → Answers ok (f a))
      → Answers ok (m >>= f)
  Answers-bind (done a) f k next = next a
  Answers-bind (returned r) f k next = Answers-returned r (k.at r refl)

pub ruleset answer_rules = (
  Answers-done, Answers-returned, Answers-if, Answers-bind, Returns-done, Returns-returned,
  Returns-if, Returns-bind, Returns-some_or, Returns-return_if, Returns-return_existing,
)
