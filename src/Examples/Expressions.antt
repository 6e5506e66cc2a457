-- ===== src/Examples/Expressions.antt =====
-- The theorem on expressions, applied with floats that are whole numbers below a bound.
use agentops_workflow_platfo.Base.{
  ◌+◌, String, ◌≡◌, refl, false, true, Option, none, some, ◌⊎◌, ltb, ◌==◌,
}
use agentops_workflow_platfo.Base.Float.{Float}
use agentops_workflow_platfo.Data.Json.{Json, ℤ, pos, negsuc, number, object, end}
use agentops_workflow_platfo.Data.Expression.{
  add, coalesce, Expression, literal, binary, value, raised, type_error, Python, evaluate, compute,
}
use agentops_workflow_platfo.Data.Expression.Finite.{evaluate-finite}

abbrev to_float : ℤ → Option Float
to_float (pos n) = some n
to_float (negsuc n) = none

abbrev pub python : Python
python = record {
  finite = λ x. ltb x 1000;
  is_zero = λ x. x == 0;
  convert = to_float;
  float_arithmetic = λ op x y. x + y;
  float_order = λ op a b. false;
  float_equal = λ a b. false;
  text_order = λ op s t. false;
  append_text = λ s t. s;
  sequences = λ op a b. raised type_error;
}

abbrev sum : Expression
sum = binary add (literal (number 3)) (literal (number 4))

abbrev pub no_outputs : String → Option Json
no_outputs node = none

sum_computed : evaluate python (object end) no_outputs sum ≡ value (number 7)
unfolding evaluate compute
sum_computed = refl

evaluate-finite_example : (python.finite 7 ≡ true) ⊎ (add ≡ coalesce)
evaluate-finite_example =
    evaluate-finite python (object end) no_outputs add (literal (number 3)) (literal (number 4)) 7
      sum_computed
