-- ===== src/Examples/Typed.antt =====
-- The theorems on typed expressions, for the sum of an input field and a constant.
use agentops_workflow_platfo.Base.{ℕ, ◌≡◌, refl, true, Option, none, some, [], ◌∷◌, ap, is_some}
use mathlib.Core.Bool.{false≢true}
use agentops_workflow_platfo.Data.Json.{Json, pos, integer, object, array, field, end, cons, nil}
use agentops_workflow_platfo.Data.Schema.{
  DataSchema, schema, object_type, integer_type, no_properties, property, no_items, well_formed,
  validate_data,
}
use agentops_workflow_platfo.Data.Compatible.{compatible}
use agentops_workflow_platfo.Data.Expression.{
  add, Expression, literal, binary, ref, input, name, error, evaluate,
}
use agentops_workflow_platfo.Data.Typing.{
  Scope, plain, array_of, literal_schema, operation_schema, binary_schema,
}
use agentops_workflow_platfo.Data.Typing.Literals.{is_value, literal_schema-valid}
use agentops_workflow_platfo.Data.Typing.Operations.{Safe}
use agentops_workflow_platfo.Data.Typing.Sound.{Conforms, literals_ok, evaluate-Safe}
use agentops_workflow_platfo.Data.Bindings.{Bindings, bindings, resolve_bindings}
use agentops_workflow_platfo.Data.Bindings.Sound.{Met, resolve_bindings-Met}
use agentops_workflow_platfo.Examples.Expressions.{python, no_outputs}

abbrev numbers : Json
numbers = array (cons (integer (pos 1)) (cons (integer (pos 2)) nil))

literal_schema-valid_example :
    (validate_data python.finite numbers (array_of (plain integer_type)) ≡ true)
    × (well_formed (array_of (plain integer_type)) ≡ true)
unfolding literal_schema is_value validate_data
literal_schema-valid_example =
    literal_schema-valid python.finite numbers (array_of (plain integer_type)) refl refl

abbrev order_schema : DataSchema
order_schema =
    schema (object_type ∷ []) (property "total" (plain integer_type) no_properties) ("total" ∷ [])
      no_items

abbrev scope : Scope
scope = record { input_schema = order_schema; producer = λ i. none; precedes = λ i. true }

abbrev seven : Json
seven = object (field "total" (integer (pos 7)) end)

conform : Conforms python scope seven no_outputs
unfolding validate_data well_formed
conform = record {
  inputs_valid = refl;
  inputs_formed = refl;
  outputs_valid = λ i s v p h. absurd (false≢true (ap is_some p));
  producers_formed = λ i s p. absurd (false≢true (ap is_some p));
}

-- input.total + 2
abbrev raised_total : Expression
raised_total =
    binary add (ref (record { source = input; path = name "total" ∷ []; on_missing = error }))
      (literal (integer (pos 2)))

evaluate-Safe_example :
    Safe
      (λ v. validate_data python.finite v (plain integer_type) ≡ true)
      (evaluate python seven no_outputs raised_total)
unfolding literals_ok operation_schema binary_schema literal_schema is_value
evaluate-Safe_example =
    evaluate-Safe python scope seven no_outputs conform raised_total (plain integer_type) refl refl

abbrev values : Bindings
values = ("total", raised_total) ∷ []

abbrev no_size : Json → Option ℕ
no_size v = some 20

resolve_bindings-Met_example :
    Met python.finite order_schema
      (resolve_bindings python no_size seven no_outputs values order_schema)
unfolding literals_ok bindings operation_schema binary_schema literal_schema is_value compatible
resolve_bindings-Met_example =
    resolve_bindings-Met python no_size scope seven no_outputs conform values order_schema refl refl
