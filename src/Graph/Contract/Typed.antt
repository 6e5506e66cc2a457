-- ===== src/Graph/Contract/Typed.antt =====
-- The inputs of every node of a validated graph meet their data contract at run time.
use mathlib.Core.Bool.{false≢true}
use agentops_workflow_platfo.Base.{
  ℕ, String, str_eq, ◌≡◌, ap, true, Option, some, List, [], ◌∷◌, arith, Bool-cases, inl, inr,
  is_some,
}
use agentops_workflow_platfo.Data.Json.{Json}
use agentops_workflow_platfo.Data.Expression.{Python}
use agentops_workflow_platfo.Data.Typing.Sound.{Conforms}
use agentops_workflow_platfo.Data.Bindings.{bindings, resolve_bindings}
use agentops_workflow_platfo.Data.Bindings.Sound.{all_literals_ok, Met, resolve_bindings-Met}
use agentops_workflow_platfo.Engine.World.{Node, WorkflowGraph}
use agentops_workflow_platfo.Engine.Records.{find_node}
use agentops_workflow_platfo.Graph.Order.{
  member, ids, Sorting, sorted, order_of, identities, acyclic,
}
use agentops_workflow_platfo.Graph.Order.Rank.{acyclic-covers}
use agentops_workflow_platfo.Graph.Order.Reach.{from_all}
use agentops_workflow_platfo.Graph.Contract.{scope_at, inputs_fit, inputs_ok}

find_node-member :
    (key : String) (nodes : List Node) {n : Node}
    → find_node key nodes ≡ some n
    → member key (ids nodes) ≡ true
find_node-member key [] h = absurd (false≢true (ap is_some h))
find_node-member key (n ∷ ns) h = elim (Bool-cases (str_eq n.id key)) [
  | inl hit ↦ ground (arith, hit)
  | inr miss ↦ ground (arith, find_node-member key ns (rw miss at h))
]

module _ (py : Python) (dumps : Json → Option ℕ) (g : WorkflowGraph) (s : Sorting) where
  inputs_ok-bindings :
      (key : String) (n : Node)
      → member key s.done ≡ true
      → find_node key g.nodes ≡ some n
      → inputs_ok py.finite g s ≡ true
      → bindings py.finite (scope_at g s key) n.inputs n.input_schema ≡ true
  unfolding inputs_ok
  inputs_ok-bindings key n m found h =
      rw found at (from_all (λ k. inputs_fit py.finite g s (find_node k g.nodes) k) s.done h key m)

  -- Where a graph has passed the identity checks, the check for cycles and the checks of the inputs, the
  -- inputs of any of its nodes resolve to a dict that meets the node's contract, or fail because a
  -- reference is missing, a number is out of range or the dict is too large. The data that they refer to
  -- conform to their schemas, and the literals are values of Python.
  pub inputs_ok-Met :
      (key : String) (n : Node) (inputs : Json) (outputs : String → Option Json)
      → identities g ≡ true
      → acyclic g ≡ true
      → order_of g ≡ sorted s
      → inputs_ok py.finite g s ≡ true
      → find_node key g.nodes ≡ some n
      → all_literals_ok py.finite n.inputs ≡ true
      → Conforms py (scope_at g s key) inputs outputs
      → Met py.finite n.input_schema
          (resolve_bindings py dumps inputs outputs n.inputs n.input_schema)
  inputs_ok-Met key n inputs outputs i a o h found l conforms =
      resolve_bindings-Met py dumps (scope_at g s key) inputs outputs conforms n.inputs
        n.input_schema l
        (inputs_ok-bindings key n
          (acyclic-covers g s i a o key (find_node-member key g.nodes found)) found h)
