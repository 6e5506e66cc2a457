-- ===== src/Data/Bindings.antt =====
-- Binding maps: `bindings` of services/graph_validation.py, `resolve_bindings` of
-- services/graph_expressions.py and `payload_bounds` of schemas/workflow_graph.py.
pub mod Sound
use agentops_workflow_platfo.Base.{
  ℕ, suc, String, str_eq, Bool, true, false, ◌&&◌, ◌||◌, Option, none, some, List, [], ◌∷◌, all,
  any, leb, if◌then◌else◌,
}
use agentops_workflow_platfo.Base.Float.{Float}
use agentops_workflow_platfo.Data.Json.{
  Json, Items, Fields, null, boolean, integer, number, string, array, object, nil, cons, end, field,
  get,
}
use agentops_workflow_platfo.Data.Schema.{
  DataSchema, schema, object_type, property_at, validate_data,
}
use agentops_workflow_platfo.Data.Expression.{
  Expression, Outcome, value, raised, Failure, Python, evaluate,
}
use agentops_workflow_platfo.Data.Typing.{Scope, only, binding_fits, operation_schema}

-- dict[str, Expression]
abbrev pub Bindings : Type 0
Bindings = List (String × Expression)

abbrev pub has_binding : Bindings → String → Bool
has_binding values k = any (λ b. str_eq b.0 k) values

module _ (finite : Float → Bool) (scope : Scope) where
  unfoldable pub bindings : Bindings → DataSchema → Bool
  unfolding validate_data operation_schema
  bindings values (schema ts ps required it) =
      only object_type ts
      && all (has_binding values) required
      && all (λ b. binding_fits finite scope b.1 (property_at b.0 ps)) values

-- `depth` of payload_bounds: no part lies deeper than 32 levels.
unfoldable mutual
  pub depth_ok : Json → ℕ → Bool
  depth_ok (array xs) level = leb level 32 && items_depth_ok xs (suc level)
  depth_ok (object fs) level = leb level 32 && fields_depth_ok fs (suc level)
  depth_ok _ level = leb level 32

  pub items_depth_ok : Items → ℕ → Bool
  items_depth_ok nil level = true
  items_depth_ok (cons x xs) level = depth_ok x level && items_depth_ok xs level

  pub fields_depth_ok : Fields → ℕ → Bool
  fields_depth_ok end level = true
  fields_depth_ok (field k v rest) level = depth_ok v level && fields_depth_ok rest level

abbrev pub is_integer : Option Json → Bool
is_integer none = true
is_integer (some (integer n)) = true
is_integer (some _) = false

-- `dumps` is the number of bytes of `json.dumps(value, allow_nan=False)`, or its ValueError.
abbrev pub size_ok : Option ℕ → Bool
size_ok none = false
size_ok (some n) = leb n 262144

unfoldable pub payload_bounds : (Json → Option ℕ) → Fields → Bool
unfolding depth_ok
payload_bounds dumps fs =
    is_integer (get "schema_version" fs) && depth_ok (object fs) 0 && size_ok (dumps (object fs))

-- A dict that passed, an error of an expression, a ValidationError, or the ValueError of the bounds.
pub data Resolved : Type 0 where
  bound : Fields → Resolved
  failed : Failure → Resolved
  invalid : Resolved
  too_large : Resolved

pub data Evaluated : Type 0 where
  evaluated : Fields → Evaluated
  stopped : Failure → Evaluated

abbrev pub put_field : String → Outcome → Evaluated → Evaluated
put_field k (raised e) rest = stopped e
put_field k (value v) (stopped e) = stopped e
put_field k (value v) (evaluated fs) = evaluated (field k v fs)

module _ (py : Python) (inputs : Json) (outputs : String → Option Json) where
  -- {key: evaluate(expr, inputs, outputs) for key, expr in bindings.items()}
  unfoldable pub evaluate_all : Bindings → Evaluated
  unfolding evaluate
  evaluate_all [] = evaluated end
  evaluate_all ((k, e) ∷ rest) = put_field k (evaluate py inputs outputs e) (evaluate_all rest)

module _ (py : Python) (dumps : Json → Option ℕ) (inputs : Json)
    (outputs : String → Option Json) where
  abbrev pub checked : DataSchema → Evaluated → Resolved
  checked expected (stopped e) = failed e
  checked expected (evaluated fs) =
      if validate_data py.finite (object fs) expected
      then (if payload_bounds dumps (field "value" (object fs) end) then bound fs else too_large)
      else invalid

  unfoldable pub resolve_bindings : Bindings → DataSchema → Resolved
  unfolding evaluate_all validate_data payload_bounds
  resolve_bindings values expected = checked expected (evaluate_all py inputs outputs values)
