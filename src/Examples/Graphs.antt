-- ===== src/Examples/Graphs.antt =====
-- The theorems on graphs, for one condition with two routes.
use mathlib.Core.Bool.{false≢true}
use mathlib.Core.Option.{some-injective}
use agentops_workflow_platfo.Base.{
  both, ap, subst, str_eq, is_some, Bool-cases, inl, inr, List, ℕ, String, ◌≡◌, refl, true, Option,
  none, some, [], ◌∷◌, all, ◌↔◌,
}
use agentops_workflow_platfo.Data.Json.{Json, pos, boolean, integer, object, field, end}
use agentops_workflow_platfo.Data.Schema.{
  DataSchema, schema, object_type, integer_type, no_properties, property, no_items, well_formed,
  validate_data,
}
use agentops_workflow_platfo.Data.Expression.{literal, ref, input, name, error}
use agentops_workflow_platfo.Data.Compatible.{compatible}
use agentops_workflow_platfo.Data.Typing.Sound.{Conforms, literals_ok}
use agentops_workflow_platfo.Data.Typing.{operation_schema}
use agentops_workflow_platfo.Data.Bindings.{resolve_bindings, bindings}
use agentops_workflow_platfo.Data.Bindings.Sound.{Met}
use agentops_workflow_platfo.Engine.World.{StepRun, Node, WorkflowGraph, condition_config}
use agentops_workflow_platfo.Engine.Records.{find_node}
use agentops_workflow_platfo.Graph.Order.{
  member, ids, identities, acyclic, order_of, Sorting, sorted, starting, sort, relax, relax_all,
  all_reached, reach,
}
use agentops_workflow_platfo.Graph.Order.Ends.{is_finished, order_of-finished}
use agentops_workflow_platfo.Graph.Order.Search.{Reachable}
use agentops_workflow_platfo.Graph.Order.Reach.{all_reached-Reachable}
use agentops_workflow_platfo.Graph.Contract.{
  output_of, scope_at, inputs_ok, nodes_ok, outputs_ok, edges_fit, merge_fits, assignments_fit,
}
use agentops_workflow_platfo.Engine.Routing.{
  Rows, Routes, put_row, numbered, complete_outgoing, next_node,
}
use agentops_workflow_platfo.Engine.Routing.Answers.{Answers}
use agentops_workflow_platfo.Engine.Routing.Due.{Progressed}
use agentops_workflow_platfo.Engine.Routing.Verdicts.{
  Taken, put_taken, Agrees, complete_outgoing-Agrees,
}
use agentops_workflow_platfo.Engine.Status.{completed}
use agentops_workflow_platfo.Engine.Routing.Validated.{
  validate_graph_contract-Progressed, validate_graph_contract-Met,
}
use agentops_workflow_platfo.Graph.Validation.{validate_graph_contract}
use agentops_workflow_platfo.Graph.Branches.{branch_paths, visit}
use agentops_workflow_platfo.Graph.Quality.{quality_ok}
use agentops_workflow_platfo.Data.Typing.{literal_schema}
use agentops_workflow_platfo.Examples.Rows.{any_object, draft, step}
use agentops_workflow_platfo.Examples.Expressions.{python, no_outputs}

-- {"total": integer}
abbrev order_schema : DataSchema
order_schema =
    schema (object_type ∷ [])
      (property "total" (schema (integer_type ∷ []) no_properties [] no_items) no_properties)
      ("total" ∷ []) no_items

abbrev check : Node
check = record draft {
  id = "check";
  type = "condition";
  config =
      condition_config (record { label = "yes"; condition = literal (boolean true) } ∷ []) "no";
}

abbrev ship : Node
ship = record draft {
  id = "ship";
  inputs =
      ("total", ref (record { source = input; path = name "total" ∷ []; on_missing = error })) ∷ [];
  input_schema = order_schema;
}

abbrev hold : Node
hold = record draft { id = "hold" }

abbrev orders : WorkflowGraph
orders = record {
  entry_node = "check";
  input_schema = order_schema;
  output_schema = any_object;
  outputs = [];
  quality_revision = none;
  nodes = check ∷ ship ∷ hold ∷ [];
  edges =
      record { source = "check"; target = "ship"; label = some "yes" }
      ∷ record { source = "check"; target = "hold"; label = some "no" }
      ∷ [];
}

orders-identities : identities orders ≡ true
unfolding identities
orders-identities = refl

order_of-finished_example : is_finished (order_of orders) ≡ true
order_of-finished_example = order_of-finished orders refl

all_reached-Reachable_example : (all_reached orders ≡ true) ↔ (
    (x : String)
    → member x (ids orders.nodes) ≡ true
    → ∥ Reachable orders.entry_node orders.edges x ∥₁)
all_reached-Reachable_example = all_reached-Reachable orders orders-identities

abbrev checked : StepRun
checked = record step { node_id = "check"; step_type = "condition"; status = completed }

abbrev rows : Rows
rows = put_row "check" checked (λ key. none)

abbrev edges : Routes
edges = complete_outgoing checked (some "yes") (numbered 0 orders.edges) (λ i. none)

abbrev taken : Taken
taken = put_taken "check" (some "yes") (λ key. none)

complete_outgoing-Agrees_example : Agrees (numbered 0 orders.edges) taken rows edges
complete_outgoing-Agrees_example =
    complete_outgoing-Agrees checked (some "yes") orders.edges (λ key. none) (λ key. none)
      (λ i. none) refl (λ p m. refl)

orders_accepted : validate_graph_contract python.finite orders ≡ true
unfolding validate_graph_contract identities all_reached reach acyclic order_of sort starting
    relax_all relax inputs_ok nodes_ok outputs_ok bindings operation_schema compatible branch_paths
    visit quality_ok edges_fit merge_fits assignments_fit literal_schema
orders_accepted = refl

check_settled : Agrees (numbered 0 orders.edges) taken rows edges
check_settled =
    complete_outgoing-Agrees checked (some "yes") orders.edges (λ key. none) (λ key. none)
      (λ i. none) refl (λ p m. refl)

validate_graph_contract-Progressed_example :
    Answers (next_node orders rows edges) (Progressed orders taken rows)
validate_graph_contract-Progressed_example =
    validate_graph_contract-Progressed python.finite orders taken rows edges orders_accepted
      check_settled

abbrev sorting : Sorting
unfolding order_of sort starting relax_all relax
sorting = elim (order_of orders) [ sorted s ↦ s | _ ↦ starting orders ]

orders_sorted : order_of orders ≡ sorted sorting
unfolding order_of sort starting relax_all relax sorting
orders_sorted = refl

abbrev seven : Json
seven = object (field "total" (integer (pos 7)) end)

outputs_formed :
    (i : String) (nodes : List Node) (s : DataSchema)
    → all (λ n. well_formed n.output_schema) nodes ≡ true
    → output_of (find_node i nodes) ≡ some s
    → well_formed s ≡ true
outputs_formed i [] s h e = absurd (false≢true (ap is_some e))
outputs_formed i (n ∷ ns) s h e = elim (Bool-cases (str_eq n.id i)) [
  | inl hit ↦ subst (λ t. well_formed t ≡ true) (some-injective _ _ (rw hit at e)) (both h).0
  | inr miss ↦ outputs_formed i ns s (both {a = well_formed n.output_schema} h).1 (rw miss at e)
]

orders_conform : Conforms python (scope_at orders sorting "ship") seven no_outputs
unfolding validate_data well_formed
orders_conform = record {
  inputs_valid = refl;
  inputs_formed = refl;
  outputs_valid = λ i s v p h. absurd (false≢true (ap is_some h));
  producers_formed = λ i s p. outputs_formed i orders.nodes s refl p;
}

abbrev no_size : Json → Option ℕ
no_size v = some 20

validate_graph_contract-Met_example :
    Met python.finite order_schema
      (resolve_bindings python no_size seven no_outputs ship.inputs order_schema)
unfolding literals_ok
validate_graph_contract-Met_example =
    validate_graph_contract-Met python no_size orders sorting "ship" ship seven no_outputs
      orders_accepted orders_sorted refl refl orders_conform
