-- ===== src/Graph/Validation.antt =====
-- `validate_graph_contract` of services/graph_validation.py as a whole, and `ensure_executable`: the graph
-- is accepted, or a ValidationError is raised.
use agentops_workflow_platfo.Base.{
  String, Bool, true, false, not, ◌&&◌, ◌||◌, List, all, is_some, length, ◌==◌,
}
use agentops_workflow_platfo.Base.Float.{Float}
use agentops_workflow_platfo.Engine.World.{WorkflowGraph}
use agentops_workflow_platfo.Graph.Order.{
  member, Outcome, sorted, too_many_routes, unfinished, identities, all_reached, order_of,
}
use agentops_workflow_platfo.Graph.Branches.{Visited, visited, refused, exhausted, branch_paths}
use agentops_workflow_platfo.Graph.Contract.{inputs_ok, nodes_ok, outputs_ok}
use agentops_workflow_platfo.Graph.Quality.{quality_ok}

abbrev is_visited : Visited → Bool
is_visited (visited paths) = true
is_visited refused = false
is_visited exhausted = false

abbrev pub with_order : (Float → Bool) → WorkflowGraph → Outcome → Bool
with_order finite g too_many_routes = false
with_order finite g unfinished = false
with_order finite g (sorted s) =
    length s.done == length g.nodes
    && inputs_ok finite g s
    && nodes_ok finite g s
    && outputs_ok finite g s
    && is_visited (branch_paths g)
    && quality_ok g s

unfoldable pub validate_graph_contract : (Float → Bool) → WorkflowGraph → Bool
unfolding inputs_ok nodes_ok outputs_ok branch_paths quality_ok identities all_reached order_of
validate_graph_contract finite g = identities g && all_reached g && with_order finite g (order_of g)

-- The executors of all nodes are available, and revisions where the graph asks for them.
abbrev pub ensure_executable : WorkflowGraph → List String → Bool → Bool
ensure_executable g available_types quality_revisions =
    all (λ n. member n.type available_types) g.nodes
    && (not (is_some g.quality_revision) || quality_revisions)
