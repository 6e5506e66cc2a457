-- ===== src/Engine/Action.antt =====
-- Code inside a transaction: it reads and writes the rows, and may raise. What was written before a
-- raise is there for a handler; a raise that leaves the transaction rolls it back.
use agentops_workflow_platfo.Base.{ℕ, String, List, [], ◌∷◌, Bool, true, false}
use agentops_workflow_platfo.Engine.World.{World}

pub data Error : Type 0 where
  value_error : String → Error
  execution_error : String → Error
  integrity_error : Error
  stale_workflow : Error
  lease_lost : Error
  http_exception : ℕ → Error
  no_recovery : Error
  no_deadline : Error
  no_wake : Error
  loop_bound : Error

pub data Result {ℓ} (A : Type ℓ) : Type ℓ where
  ok : A → Result A
  err : Error → Result A

abbrev pub Action : Type 0 → Type 0
Action A = World → Result A × World

module _ {A : Type 0} where
  unfoldable pub pure : A → Action A
  pure a w = (ok a, w)

  unfoldable pub raise : Error → Action A
  raise e w = (err e, w)

  unfoldable pub gets : (World → A) → Action A
  gets f w = (ok (f w), w)

unfoldable pub modify : (World → World) → Action (Unit {0})
modify f w = (ok tt, f w)

module _ {A B : Type 0} where
  abbrev pub continue : Result A → (A → Action B) → Action B
  continue (ok a) f w = f a w
  continue (err e) f w = (err e, w)

  infixl 10 ◌>>=◌ ◌>>◌
  -- Opening this opens the other actions too.
  unfoldable pub ◌>>=◌ : Action A → (A → Action B) → Action B
  unfolding pure raise gets modify
  ◌>>=◌ m f w = let (r, w') = m w in continue r f w'

  abbrev pub ◌>>◌ : Action A → Action B → Action B
  m >> n = m >>= λ _. n

-- `if test: raise ValueError(message)`
abbrev pub raise_if : Bool → Error → Action (Unit {0})
raise_if true e = raise e
raise_if false e = pure tt

abbrev pub when : Bool → Action (Unit {0}) → Action (Unit {0})
when true m = m
when false m = pure tt

-- `for row in rows:`
unfoldable pub for_each : List ℕ → (ℕ → Action (Unit {0})) → Action (Unit {0})
for_each [] f = pure tt
for_each (i ∷ is) f = do f i; for_each is f
