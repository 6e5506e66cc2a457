-- ===== src/Engine/Keeps.antt =====
-- What an action leaves true of the rows, whether it returns or raises: a rule for each way to build
-- an action.
use agentops_workflow_platfo.Base.{
  arith, ap, subst, if◌then◌else◌, ◌≡◌, refl, ℕ, String, Bool, true, false, Option, none, some,
  List, [], ◌∷◌,
}
use agentops_workflow_platfo.Engine.World.{World}
use agentops_workflow_platfo.Engine.Action.{
  Error, value_error, Result, ok, err, Action, continue, pure, raise, gets, modify, raise_if, when,
  for_each, ◌>>=◌,
}
use agentops_workflow_platfo.Engine.Records.{or_raise}

pub record Keeps {A : Type 0} (P : World → Type 0) (m : Action A) : Type 0 where
  pub at : (w : World) → P w → P (m w).1

module _ {A : Type 0} {P : World → Type 0} where
  pub Keeps-pure : (a : A) → Keeps P (pure a)
  unfolding pure
  Keeps-pure a = record { at = λ w h. h }

  pub Keeps-raise : (e : Error) → Keeps P (raise {A = A} e)
  unfolding raise
  Keeps-raise e = record { at = λ w h. h }

  pub Keeps-gets : (f : World → A) → Keeps P (gets f)
  unfolding gets
  Keeps-gets f = record { at = λ w h. h }

  pub Keeps-or_raise : (o : Option A) (message : String) → Keeps P (or_raise o message)
  Keeps-or_raise none message = Keeps-raise (value_error message)
  Keeps-or_raise (some a) message = Keeps-pure a

module _ {P : World → Type 0} where
  pub Keeps-modify : (f : World → World) → ((w : World) → P w → P (f w)) → Keeps P (modify f)
  unfolding modify
  Keeps-modify f k = record { at = k }

  pub Keeps-raise_if : (b : Bool) (e : Error) → Keeps P (raise_if b e)
  Keeps-raise_if true e = Keeps-raise e
  Keeps-raise_if false e = Keeps-pure tt

  pub Keeps-when : (b : Bool) (m : Action (Unit {0})) → Keeps P m → Keeps P (when b m)
  Keeps-when true m k = k
  Keeps-when false m k = Keeps-pure tt

module _ {A B : Type 0} {P : World → Type 0} where
  pub Keeps-bind :
      (m : Action A) (f : A → Action B) → Keeps P m → ((a : A) → Keeps P (f a)) → Keeps P (m >>= f)
  unfolding ◌>>=◌
  Keeps-bind m f km kf = record { at = λ w h. go (m w) (km.at w h) }
    where
      go : (r : Result A × World) → P r.1 → P (continue r.0 f r.1).1
      go (ok a, w) h = (kf a).at w h
      go (err e, w) h = h

module _ {P : World → Type 0} where
  pub Keeps-for_each :
      (rows : List ℕ) (f : ℕ → Action (Unit {0}))
      → ((i : ℕ) → Keeps P (f i))
      → Keeps P (for_each rows f)
  unfolding for_each
  Keeps-for_each [] f k = Keeps-pure tt
  Keeps-for_each (i ∷ rest) f k =
      Keeps-bind (f i) (λ _. for_each rest f) (k i) (λ _. Keeps-for_each rest f k)

pub ruleset keeps_rules = (
  Keeps-pure, Keeps-raise, Keeps-gets, Keeps-or_raise, Keeps-raise_if, Keeps-when, Keeps-bind,
  Keeps-for_each,
)

-- From `P` before an action to `Q` after it, whether it returns or raises.
pub record Meets {A : Type 0} (P : World → Type 0) (m : Action A) (Q : World → Type 0)
    : Type 0 where
  pub at : (w : World) → P w → Q (m w).1

module _ {A B : Type 0} {P Q : World → Type 0} where
  -- What is read may be used of the rows as long as they are not written.
  pub Meets-gets :
      (f : World → A) (k : A → Action B)
      → ((a : A) → Meets (λ w. P w × (f w ≡ a)) (k a) Q)
      → Meets P (gets f >>= k) Q
  unfolding ◌>>=◌
  Meets-gets f k h = record { at = λ w p. (h (f w)).at w (p, refl) }

  pub Meets-bind :
      (m : Action A) (f : A → Action B)
      → Keeps P m
      → ((w : World) → P w → Q w)
      → ((a : A) → Meets P (f a) Q)
      → Meets P (m >>= f) Q
  unfolding ◌>>=◌
  Meets-bind m f km weaken kf = record { at = λ w h. go (m w) (km.at w h) }
    where
      go : (r : Result A × World) → P r.1 → Q (continue r.0 f r.1).1
      go (ok a, w) h = (kf a).at w h
      go (err e, w) h = weaken w h

module _ {A : Type 0} {P Q : World → Type 0} where
  pub Meets-raise_if :
      (b : Bool) (e : Error) (m : Action A)
      → ((w : World) → P w → Q w)
      → (b ≡ false → Meets P m Q)
      → Meets P (raise_if b e >>= λ _. m) Q
  unfolding ◌>>=◌
  Meets-raise_if true e m weaken k = record { at = weaken }
  Meets-raise_if false e m weaken k = record { at = (k refl).at }

  pub Meets-modify :
      (f : World → World) (a : A)
      → ((w : World) → P w → Q (f w))
      → Meets P (modify f >>= λ _. pure a) Q
  unfolding ◌>>=◌
  Meets-modify f a k = record { at = k }

module _ {A B : Type 0} {P Q : World → Type 0} where
  pub Meets-or_raise :
      (o : Option B) (message : String) (f : B → Action A)
      → ((w : World) → P w → Q w)
      → ((b : B) → o ≡ some b → Meets P (f b) Q)
      → Meets P (or_raise o message >>= f) Q
  unfolding ◌>>=◌
  Meets-or_raise none message f weaken k = record { at = weaken }
  Meets-or_raise (some b) message f weaken k = record { at = (k b refl).at }

-- What holds of the rows after an action that returns: the last write decides.
pub record Ensures {A : Type 0} (m : Action A) (Q : World → Type 0) : Type 0 where
  pub at : (w : World) (a : A) (u : World) → m w ≡ (ok a, u) → Q u

module _ {A : Type 0} {Q : World → Type 0} where
  pub Ensures-raise : (e : Error) → Ensures {A = A} (raise e) Q
  unfolding raise
  Ensures-raise e = record { at = λ w a u h. absurd (ground (arith, ap (λ r. r.0) h)) }

  pub Ensures-if :
      (b : Bool) (m n : Action A) → Ensures m Q → Ensures n Q → Ensures (if b then m else n) Q
  Ensures-if true m n em en = em
  Ensures-if false m n em en = en

module _ {A B : Type 0} {Q : World → Type 0} where
  pub Ensures-bind :
      (m : Action A) (f : A → Action B) → ((a : A) → Ensures (f a) Q) → Ensures (m >>= f) Q
  unfolding ◌>>=◌
  Ensures-bind m f k = record { at = λ w b u h. go (m w) b u h }
    where
      go : (r : Result A × World) (b : B) (u : World) → continue r.0 f r.1 ≡ (ok b, u) → Q u
      go (ok a, w) b u h = (k a).at w b u h
      go (err e, w) b u h = absurd (ground (arith, ap (λ r. r.0) h))

  -- The last action may also keep what the one before it ensures.
  pub Ensures-keep :
      (m : Action A) (f : A → Action B)
      → Ensures m Q
      → ((a : A) → Keeps Q (f a))
      → Ensures (m >>= f) Q
  unfolding ◌>>=◌
  Ensures-keep m f em k = record { at = λ w b u h. go w (m w) refl b u h }
    where
      go :
          (w : World) (r : Result A × World)
          → m w ≡ r
          → (b : B) (u : World) → continue r.0 f r.1 ≡ (ok b, u)
          → Q u
      go w (ok a, v) e b u h = subst Q (ap (λ r. r.1) h) ((k a).at v (em.at w a v e))
      go w (err e', v) e b u h = absurd (ground (arith, ap (λ r. r.0) h))

module _ {A : Type 0} {Q : World → Type 0} where
  pub Ensures-raise_if :
      (b : Bool) (e : Error) (m : Action A)
      → (b ≡ false → Ensures m Q)
      → Ensures (raise_if b e >>= λ _. m) Q
  unfolding ◌>>=◌
  Ensures-raise_if true e m k = record { at = λ w a u h. absurd (ground (arith, ap (λ r. r.0) h)) }
  Ensures-raise_if false e m k = record { at = (k refl).at }

module _ {Q : World → Type 0} where
  pub Ensures-modify : (f : World → World) → ((w : World) → Q (f w)) → Ensures (modify f) Q
  unfolding modify
  Ensures-modify f k = record { at = λ w a u h. subst Q (ap (λ r. r.1) h) (k w) }

-- From `P` before an action to `Q` after it, when it returns.
pub record Brings {A : Type 0} (P : World → Type 0) (m : Action A) (Q : World → Type 0)
    : Type 0 where
  pub at : (w : World) (a : A) (u : World) → P w → m w ≡ (ok a, u) → Q u

module _ {A : Type 0} {P Q : World → Type 0} where
  pub Brings-Ensures : (m : Action A) → Ensures m Q → Brings P m Q
  Brings-Ensures m em = record { at = λ w a u p h. em.at w a u h }

module _ {A : Type 0} {P : World → Type 0} where
  pub Brings-Keeps : (m : Action A) → Keeps P m → Brings P m P
  Brings-Keeps m km = record { at = λ w a u p h. subst P (ap (λ r. r.1) h) (km.at w p) }

module _ {A B : Type 0} {P R Q : World → Type 0} where
  pub Brings-bind :
      (m : Action A) (f : A → Action B)
      → Brings P m R
      → ((a : A) → Brings R (f a) Q)
      → Brings P (m >>= f) Q
  unfolding ◌>>=◌
  Brings-bind m f bm bf = record { at = λ w b u p h. go w (m w) refl b u p h }
    where
      go :
          (w : World) (r : Result A × World)
          → m w ≡ r
          → (b : B) (u : World) → P w
          → continue r.0 f r.1 ≡ (ok b, u)
          → Q u
      go w (ok a, v) e b u p h = (bf a).at v b u (bm.at w a v p e) h
      go w (err x, v) e b u p h = absurd (ground (arith, ap (λ r. r.0) h))
