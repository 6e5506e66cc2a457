-- ===== src/Data/Expression/Finite.antt =====
-- Numbers that expressions compute.
use agentops_workflow_platfo.Base.{
  String, ◌≡◌, refl, ap, ◌∙◌, true, Option, none, some, arith, Bool-cases, ◌⊎◌, inl, inr,
}
use agentops_workflow_platfo.Base.Float.{Float}
use agentops_workflow_platfo.Data.Json.{Json, null, boolean, integer, number, string, array, object}
use agentops_workflow_platfo.Data.Expression.{
  Binary, eq, ne, gt, gte, lt, lte, and, or, add, subtract, multiply, concat, coalesce, Expression,
  binary, Outcome, value, raised, Python, check_finite, early, operate, then_operate, or_second,
  combine, evaluate, truthy,
}

abbrev Gives : Outcome → Float → Type 0
Gives o x = o ≡ value (number x)

from_value : (v : Json) (x : Float) → value v ≡ value (number x) → v ≡ number x
from_value v x h = ground (arith, h)

module _ (py : Python) where
  check_finite-finite : (o : Outcome) (x : Float) → Gives (check_finite py o) x → py.finite x ≡ true
  check_finite-finite (raised e) x h = ground (arith, h)
  check_finite-finite (value (number y)) x h = elim (Bool-cases (py.finite y)) [
    | inl f ↦ ground (arith, rw f at h)
    | inr n ↦ absurd (ground (arith, rw n at h))
  ]
  check_finite-finite (value null) x h = ground (arith, h)
  check_finite-finite (value (boolean b)) x h = ground (arith, h)
  check_finite-finite (value (integer n)) x h = ground (arith, h)
  check_finite-finite (value (string s)) x h = ground (arith, h)
  check_finite-finite (value (array v)) x h = ground (arith, h)
  check_finite-finite (value (object v)) x h = ground (arith, h)

  early-number :
      (op : Binary) (v : Json) (x : Float) → early py op v ≡ some (number x) → op ≡ coalesce
  unfolding early
  early-number and v x h = elim (Bool-cases (truthy py v)) [
    | inl t ↦ absurd (ground (arith, rw t at h))
    | inr f ↦ absurd (ground (arith, rw f at h))
  ]
  early-number or v x h = elim (Bool-cases (truthy py v)) [
    | inl t ↦ absurd (ground (arith, rw t at h))
    | inr f ↦ absurd (ground (arith, rw f at h))
  ]
  early-number coalesce v x h = refl
  early-number eq v x h = absurd (ground (arith, h))
  early-number ne v x h = absurd (ground (arith, h))
  early-number gt v x h = absurd (ground (arith, h))
  early-number gte v x h = absurd (ground (arith, h))
  early-number lt v x h = absurd (ground (arith, h))
  early-number lte v x h = absurd (ground (arith, h))
  early-number add v x h = absurd (ground (arith, h))
  early-number subtract v x h = absurd (ground (arith, h))
  early-number multiply v x h = absurd (ground (arith, h))
  early-number concat v x h = absurd (ground (arith, h))

  -- The outcome of the second half of an operator.
  second-number :
      (op : Binary) (first : Json) (o : Outcome) (x : Float)
      → Gives (then_operate py op first o) x
      → py.finite x ≡ true
  second-number op first (raised e) x h = absurd (ground (arith, h))
  second-number op first (value second) x h = check_finite-finite (operate py op first second) x h

  combine-number :
      (op : Binary) (first second : Outcome) (x : Float)
      → Gives (combine py op first second) x
      → (py.finite x ≡ true) ⊎ (op ≡ coalesce)
  combine-number op (raised e) second x h = absurd (ground (arith, h))
  combine-number op (value first) second x h = go (early py op first) refl h
    where
      go :
          (o : Option Json)
          → early py op first ≡ o
          → Gives (or_second py o (then_operate py op first second)) x
          → (py.finite x ≡ true) ⊎ (op ≡ coalesce)
      go none _ k = inl (second-number op first second x k)
      go (some v) e k = inr (early-number op first x (e ∙ ap some (from_value v x k)))

  -- An operator with two operands, `coalesce` aside, gives no number that is not finite, whatever its
  -- operands, the inputs and the outputs are.
  pub evaluate-finite :
      (inputs : Json) (outputs : String → Option Json) (op : Binary) (a b : Expression) (x : Float)
      → evaluate py inputs outputs (binary op a b) ≡ value (number x)
      → (py.finite x ≡ true) ⊎ (op ≡ coalesce)
  unfolding evaluate
  evaluate-finite inputs outputs op a b x h =
      combine-number op (evaluate py inputs outputs a) (evaluate py inputs outputs b) x h
