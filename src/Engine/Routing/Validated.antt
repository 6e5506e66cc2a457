-- ===== src/Engine/Routing/Validated.antt =====
-- What `validate_graph_contract` promises to the interpreter.
use mathlib.Core.Bool.{false≢true}
use agentops_workflow_platfo.Base.{
  both, ℕ, String, ◌≡◌, refl, sym, ap, ◌∙◌, subst, Bool, true, ◌&&◌, Option, some, arith, length,
  ◌==◌,
}
use agentops_workflow_platfo.Base.Float.{Float}
use agentops_workflow_platfo.Data.Json.{Json}
use agentops_workflow_platfo.Data.Expression.{Python}
use agentops_workflow_platfo.Data.Typing.Sound.{Conforms}
use agentops_workflow_platfo.Data.Bindings.{resolve_bindings}
use agentops_workflow_platfo.Data.Bindings.Sound.{all_literals_ok, Met}
use agentops_workflow_platfo.Engine.World.{Node, WorkflowGraph}
use agentops_workflow_platfo.Engine.Records.{find_node}
use agentops_workflow_platfo.Graph.Order.{
  Sorting, Outcome, sorted, too_many_routes, unfinished, identities, all_reached, acyclic, order_of,
}
use agentops_workflow_platfo.Graph.Contract.{scope_at, inputs_ok}
use agentops_workflow_platfo.Graph.Contract.Typed.{inputs_ok-Met}
use agentops_workflow_platfo.Graph.Validation.{with_order, validate_graph_contract}
use agentops_workflow_platfo.Engine.Routing.{Routes, Rows, numbered, next_node}
use agentops_workflow_platfo.Engine.Routing.Answers.{Answers}
use agentops_workflow_platfo.Engine.Routing.Due.{Progressed}
use agentops_workflow_platfo.Engine.Routing.Verdicts.{Taken, Agrees}
use agentops_workflow_platfo.Engine.Routing.Valid.{next_node-acyclic}

first_two : (a b c d e f : Bool) → a && b && c && d && e && f ≡ true → (a ≡ true) × (b ≡ true)
first_two a b c d e f h = (ground (arith, h), ground (arith, h))

abbrev sorting_of : Sorting → Outcome → Sorting
sorting_of s (sorted t) = t
sorting_of s _ = s

same_sorting : (s t : Sorting) → sorted s ≡ sorted t → s ≡ t
same_sorting s t e = ap (sorting_of s) e

module _ (finite : Float → Bool) (g : WorkflowGraph) where
  -- The parts of the validation that the interpreter relies on.
  record Validated : Type 0 where
    identified : identities g ≡ true
    order : Sorting
    ordered : order_of g ≡ sorted order
    complete : (length order.done == length g.nodes) ≡ true
    inputs : inputs_ok finite g order ≡ true

  of_order :
      (o : Outcome)
      → order_of g ≡ o
      → identities g ≡ true
      → with_order finite g o ≡ true
      → Validated
  of_order too_many_routes e i h = absurd (false≢true h)
  of_order unfinished e i h = absurd (false≢true h)
  of_order (sorted s) e i h =
      let (complete, inputs) =
        first_two (length s.done == length g.nodes) (inputs_ok finite g s) _ _ _ _ h in
      record { identified = i; order = s; ordered = e; complete = complete; inputs = inputs }

  validated : validate_graph_contract finite g ≡ true → Validated
  unfolding validate_graph_contract
  validated h =
      let checks = both {a = identities g && all_reached g} h in
      of_order (order_of g) refl (both {a = identities g} checks.0).0 checks.1

  Validated-acyclic : Validated → acyclic g ≡ true
  unfolding acyclic
  Validated-acyclic v = rw v.ordered v.complete

  -- On a graph that `validate_graph_contract` has accepted, and edges that agree with the rows of an
  -- execution, `next_node` finds a node that had no row, or ends with a row for every node, unless the
  -- writing of a row fails: it never stalls. The node that it finds is the entry, or every edge into it
  -- leaves a node with a row and one of these nodes has completed with a route along its edge. The edges
  -- that it gives back agree with the rows that it gives back.
  pub validate_graph_contract-Progressed :
      (taken : Taken) (rows : Rows) (edges : Routes)
      → validate_graph_contract finite g ≡ true
      → Agrees (numbered 0 g.edges) taken rows edges
      → Answers (next_node g rows edges) (Progressed g taken rows)
  validate_graph_contract-Progressed taken rows edges h =
      let v = validated h in next_node-acyclic g taken rows edges v.identified (Validated-acyclic v)

-- The inputs of any node of a graph that `validate_graph_contract` has accepted resolve to a dict that
-- meets the node's contract, or fail because a reference is missing, a number is out of range or the dict
-- is too large. The data that they refer to conform to their schemas, and the literals are values of Python.
pub validate_graph_contract-Met :
    (py : Python) (dumps : Json → Option ℕ) (g : WorkflowGraph) (s : Sorting) (key : String)
    (n : Node) (inputs : Json) (outputs : String → Option Json)
    → validate_graph_contract py.finite g ≡ true
    → order_of g ≡ sorted s
    → find_node key g.nodes ≡ some n
    → all_literals_ok py.finite n.inputs ≡ true
    → Conforms py (scope_at g s key) inputs outputs
    → Met py.finite n.input_schema
        (resolve_bindings py dumps inputs outputs n.inputs n.input_schema)
validate_graph_contract-Met py dumps g s key n inputs outputs h e found l conforms =
    let v = validated py.finite g h in
    inputs_ok-Met py dumps g s key n inputs outputs v.identified (Validated-acyclic py.finite g v) e
      (subst (λ o. inputs_ok py.finite g o ≡ true) (same_sorting v.order s (sym v.ordered ∙ e))
        v.inputs)
      found l conforms
