-- ===== src/Graph/Contract.antt =====
-- The loop of `validate_graph_contract` over the nodes in their order (services/graph_validation.py).
pub mod Typed
use agentops_workflow_platfo.Base.{
  ℕ, suc, ◌+◌, String, str_eq, Bool, true, false, not, ◌&&◌, ◌||◌, Option, none, some, List, [],
  ◌∷◌, ◌++◌, map, any, all, length, ◌==◌, leb, if◌then◌else◌, is_some,
}
use agentops_workflow_platfo.Base.Float.{Float}
use agentops_workflow_platfo.Data.Schema.{DataSchema, boolean_type, types}
use agentops_workflow_platfo.Data.Typing.{Scope, only, expression_schema, operation_schema}
use agentops_workflow_platfo.Data.Bindings.{Bindings, bindings}
use agentops_workflow_platfo.Engine.World.{
  Node, Edge, ConditionCase, Config, condition_config, fork_config, join_config, transform_config,
  other_config, WorkflowGraph,
}
use agentops_workflow_platfo.Engine.Records.{find_node}
use agentops_workflow_platfo.Graph.Order.{
  member, distinct, ids, outgoing, incoming, Signature, Sorting, find_config, occurs,
}
use agentops_workflow_platfo.Graph.Region.{region_ok}

abbrev pub output_of : Option Node → Option DataSchema
output_of none = none
output_of (some n) = some n.output_schema

-- What the expressions of a consumer may refer to: `graph`, `nodes` and `ancestors`.
abbrev pub scope_at : WorkflowGraph → Sorting → String → Scope
scope_at g s key = record {
  input_schema = g.input_schema;
  producer = λ i. output_of (find_node i g.nodes);
  precedes = λ i. s.ancestors key i;
}

-- Without a consumer any node may be referred to.
abbrev pub output_scope : WorkflowGraph → Scope
output_scope g = record {
  input_schema = g.input_schema;
  producer = λ i. output_of (find_node i g.nodes);
  precedes = λ i. true;
}

abbrev pub label_or_empty : Option String → String
label_or_empty none = ""
label_or_empty (some label) = label

-- sorted(xs) == sorted(ys): each name occurs as often in both.
abbrev pub same_names : List String → List String → Bool
same_names xs ys = length xs == length ys && all (λ x. occurs x xs == occurs x ys) xs

-- any(a == b and x != y for a, x in left for b, y in right)
abbrev pub differ : Option String → Option String → Bool
differ none none = false
differ (some a) (some b) = not (str_eq a b)
differ _ _ = true

abbrev pub exclusive : Signature → Signature → Bool
exclusive left right = any (λ a. any (λ b. str_eq a.0 b.0 && differ a.1 b.1) right) left

abbrev pub all_exclusive : List Signature → Bool
all_exclusive [] = true
all_exclusive (left ∷ rest) = all (λ right. exclusive left right) rest && all_exclusive rest

abbrev pub is_boolean : Option DataSchema → Bool
is_boolean none = false
is_boolean (some t) = only boolean_type (types t)

module _ (finite : Float → Bool) (g : WorkflowGraph) (s : Sorting) where
  abbrev pub inputs_fit : Option Node → String → Bool
  inputs_fit none key = false
  inputs_fit (some n) key = bindings finite (scope_at g s key) n.inputs n.input_schema

  -- bindings(node.inputs, node.input_schema, ...) for each node of the order
  unfoldable pub inputs_ok : Bool
  unfolding bindings
  inputs_ok = all (λ key. inputs_fit (find_node key g.nodes) key) s.done

  abbrev pub labels : List ConditionCase → String → List String
  labels [] fallback = fallback ∷ []
  labels (c ∷ cs) fallback = c.label ∷ labels cs fallback

  -- The edges out of a node, by its kind.
  unfoldable pub edges_fit : String → Config → Bool
  unfolding operation_schema region_ok
  edges_fit key (condition_config cases fallback) =
      distinct (labels cases fallback)
      && same_names (labels cases fallback)
          (map (λ e. label_or_empty e.label) (outgoing g.edges key))
      && all (λ c. is_boolean (expression_schema finite (scope_at g s key) c.condition)) cases
  edges_fit key (fork_config branches join) = region_ok g key branches join
  edges_fit key _ =
      leb (length (outgoing g.edges key)) 1
      && all (λ e. not (is_some e.label)) (outgoing g.edges key)

  -- A join names its fork, and the join of the fork is this node.
  abbrev pub is_fork_of : String → Config → Bool
  is_fork_of key (fork_config branches join) = str_eq join key
  is_fork_of key _ = false

  -- Several edges into a node are alternative routes, unless the node joins branches.
  unfoldable pub merge_fits : String → Config → Bool → Bool
  merge_fits key (join_config fork) merge = is_fork_of key (find_config fork g.nodes)
  merge_fits key _ merge =
      leb (length (incoming g.edges key)) 1 || (merge && all_exclusive (s.signatures key))

  unfoldable pub assignments_fit : String → Config → DataSchema → Bool
  unfolding bindings
  assignments_fit key (transform_config assign) output =
      bindings finite (scope_at g s key) assign output
  assignments_fit key _ output = true

  abbrev pub rest_fits : Option Node → String → Bool
  rest_fits none key = false
  rest_fits (some n) key =
      edges_fit key n.config
      && merge_fits key n.config n.exclusive_merge
      && assignments_fit key n.config n.output_schema

  unfoldable pub nodes_ok : Bool
  unfolding edges_fit merge_fits assignments_fit
  nodes_ok = all (λ key. rest_fits (find_node key g.nodes) key) s.done

  -- bindings(graph.outputs, graph.output_schema, graph, nodes, ancestors, None, ("outputs",))
  unfoldable pub outputs_ok : Bool
  unfolding bindings
  outputs_ok = bindings finite (output_scope g) g.outputs g.output_schema
