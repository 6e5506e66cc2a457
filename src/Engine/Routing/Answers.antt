-- ===== src/Engine/Routing/Answers.antt =====
-- What an action returns, for any rows: a rule for each way to build an action. It may raise the errors
-- of the rows' writers only.
use agentops_workflow_platfo.Base.{◌≡◌, refl, String, Bool, true, false, Option, none, some}
use agentops_workflow_platfo.Engine.World.{World}
use agentops_workflow_platfo.Engine.Action.{
  Error, value_error, integrity_error, Result, ok, err, Action, continue, pure, raise, gets, modify,
  raise_if, ◌>>=◌,
}
use agentops_workflow_platfo.Engine.Records.{or_raise}

-- ValueError of `add_step` and of the authority, and the unique key of the steps.
abbrev pub is_row_error : Error → Bool
is_row_error (value_error m) = true
is_row_error integrity_error = true
is_row_error _ = false

pub data Answer {A : Type 0} (Q : A → Type 0) : Result A → Type 0 where
  returned : {a : A} → Q a → Answer Q (ok a)
  refused : {e : Error} → is_row_error e ≡ true → Answer Q (err e)

pub record Answers {A : Type 0} (m : Action A) (Q : A → Type 0) : Type 0 where
  pub at : (w : World) → Answer Q (m w).0

module _ {A : Type 0} {Q : A → Type 0} where
  pub Answers-pure : (a : A) → Q a → Answers (pure a) Q
  unfolding pure
  Answers-pure a q = record { at = λ w. returned q }

  pub Answers-raise : (e : Error) → is_row_error e ≡ true → Answers (raise e) Q
  unfolding raise
  Answers-raise e h = record { at = λ w. refused h }

  pub Answers-gets : (f : World → A) → ((a : A) → Q a) → Answers (gets f) Q
  unfolding gets
  Answers-gets f q = record { at = λ w. returned (q (f w)) }

  pub Answers-or_raise :
      (o : Option A) (message : String) → ((a : A) → Q a) → Answers (or_raise o message) Q
  Answers-or_raise none message q = Answers-raise (value_error message) refl
  Answers-or_raise (some a) message q = Answers-pure a (q a)

module _ {A B : Type 0} {P : A → Type 0} {Q : B → Type 0} where
  pub Answers-bind :
      (m : Action A) (f : A → Action B)
      → Answers m P
      → ((a : A) → P a → Answers (f a) Q)
      → Answers (m >>= f) Q
  unfolding ◌>>=◌
  Answers-bind m f am af = record { at = λ w. go (m w) (am.at w) }
    where
      go : (r : Result A × World) → Answer P r.0 → Answer Q (continue r.0 f r.1).0
      go (ok a, w) (returned p) = (af a p).at w
      go (err e, w) (refused h) = refused h

abbrev pub Any : {A : Type 0} → A → Type 0
Any a = Unit {0}

pub Answers-modify : (f : World → World) → Answers (modify f) Any
unfolding modify
Answers-modify f = record { at = λ w. returned tt }

pub Answers-raise_if : (b : Bool) (e : Error) → is_row_error e ≡ true → Answers (raise_if b e) Any
Answers-raise_if true e h = Answers-raise e h
Answers-raise_if false e h = Answers-pure tt tt
