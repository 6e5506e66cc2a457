-- ===== src/Engine/Routing.antt =====
-- The routes through a graph: `next_node` of services/graph_interpreter.py, and the edges that
-- `complete_work` settles when a node has completed.
pub mod Answers
pub mod Verdicts
pub mod Progress
pub mod Due
pub mod Live
pub mod Valid
pub mod Validated
use agentops_workflow_platfo.Base.{
  ℕ, zero, suc, String, str_eq, Bool, true, false, not, ◌&&◌, ◌||◌, Option, none, some, List, [],
  ◌∷◌, any, length, ◌==◌, if◌then◌else◌, is_some,
}
use agentops_workflow_platfo.Graph.Order.{same_label}
use agentops_workflow_platfo.Engine.Status.{Status}
use agentops_workflow_platfo.Engine.World.{World, StepRun, Node, Edge, WorkflowGraph}
use agentops_workflow_platfo.Engine.Action.{
  execution_error, loop_bound, Action, pure, raise, gets, ◌>>=◌, ◌>>◌,
}
use agentops_workflow_platfo.Engine.Authority.{the_step, moved_step, transition}
use agentops_workflow_platfo.Engine.Records.{add_step}

-- What checkpoint_json["edges"] says of an edge.
pub data Route : Type 0 where
  selected skipped : Route

-- The keys of the dict are the positions of the edges in the graph.
abbrev pub Routes : Type 0
Routes = ℕ → Option Route

-- The rows of an execution by the node that they run.
abbrev pub Rows : Type 0
Rows = String → Option StepRun

abbrev pub put_route : ℕ → Route → Routes → Routes
put_route i r edges j = if i == j then some r else edges j

abbrev pub put_row : String → StepRun → Rows → Rows
put_row key step rows k = if str_eq key k then some step else rows k

-- enumerate(graph.edges)
abbrev pub numbered : ℕ → List Edge → List (ℕ × Edge)
numbered i [] = []
numbered i (e ∷ es) = (i, e) ∷ numbered (suc i) es

abbrev pub is_chosen : Option Route → Bool
is_chosen none = false
is_chosen (some selected) = true
is_chosen (some skipped) = false

-- any(edge not in edges for edge in incoming)
abbrev pub is_open : Routes → String → List (ℕ × Edge) → Bool
is_open edges key es = any (λ p. str_eq p.1.target key && not (is_some (edges p.0))) es

-- any(edges[edge] == "selected" for edge in incoming)
abbrev pub is_selected : Routes → String → List (ℕ × Edge) → Bool
is_selected edges key es = any (λ p. str_eq p.1.target key && is_chosen (edges p.0)) es

pub data Reading : Type 0 where
  ready_now : Reading
  undecided : Reading
  unreachable : Reading

-- The tests of the loop over the remaining nodes, in their order.
unfoldable pub reading : String → List (ℕ × Edge) → Routes → String → Reading
reading entry es edges key =
    if str_eq key entry
    then ready_now
    else if is_open edges key es
    then undecided
    else if is_selected edges key es
    then ready_now
    else unreachable

-- edges[str(i)] = "skipped" for each edge out of the node
unfoldable pub skip_outgoing : String → List (ℕ × Edge) → Routes → Routes
skip_outgoing key [] edges = edges
skip_outgoing key (p ∷ ps) edges =
    skip_outgoing key ps (if str_eq p.1.source key then put_route p.0 skipped edges else edges)

-- One pass over the remaining nodes: a ready node, or what remains and whether anything changed.
pub data Pass : Type 0 where
  found : Node → Rows → Routes → Pass
  passed : List Node → Rows → Routes → Bool → Pass

abbrev pub kept : Node → Pass → Pass
kept n (found m rows edges) = found m rows edges
kept n (passed rest rows edges changed) = passed (n ∷ rest) rows edges changed

abbrev pub dropped : Pass → Pass
dropped (found m rows edges) = found m rows edges
dropped (passed rest rows edges changed) = passed rest rows edges true

-- The node to run next, with the rows and the edges as the loop has left them.
pub record Settled : Type 0 where
  pub node : Option Node
  pub rows : Rows
  pub edges : Routes

abbrev pub remaining_nodes : Rows → List Node → List Node
remaining_nodes rows [] = []
remaining_nodes rows (n ∷ ns) =
    let rest = remaining_nodes rows ns in if is_some (rows n.id) then rest else n ∷ rest

-- The end of one turn of the loop, and the turns that may follow.
abbrev pub after_pass : (List Node → Rows → Routes → Action Settled) → Pass → Action Settled
after_pass again (found m rows edges) = pure (record { node = some m; rows = rows; edges = edges })
after_pass again (passed [] rows edges changed) =
    pure (record { node = none; rows = rows; edges = edges })
after_pass again (passed (m ∷ ms) rows edges true) = again (m ∷ ms) rows edges
after_pass again (passed (m ∷ ms) rows edges false) = raise (execution_error "graph_stalled")

module _ (graph : WorkflowGraph) where
  unfoldable pub settle : List Node → Rows → Routes → Action Pass
  unfolding reading skip_outgoing
  settle [] rows edges = pure (passed [] rows edges false)
  settle (n ∷ ns) rows edges = elim (reading graph.entry_node (numbered 0 graph.edges) edges n.id) [
    | ready_now ↦ pure (found n rows edges)
    | undecided ↦ do pass ← settle ns rows edges; pure (kept n pass)
    | unreachable ↦ do
      step ← add_step n.id "main" 0
      transition (the_step step) Status.skipped
      now ← gets (λ w. w.now)
      pass ←
          settle ns (put_row n.id (moved_step step Status.skipped now) rows)
            (skip_outgoing n.id (numbered 0 graph.edges) edges)
      pure (dropped pass)
  ]

  -- `while remaining:`, where each pass that changes something leaves fewer nodes.
  unfoldable pub settle_all : ℕ → List Node → Rows → Routes → Action Settled
  unfolding settle
  settle_all fuel [] rows edges = pure (record { node = none; rows = rows; edges = edges })
  settle_all zero (n ∷ ns) rows edges = raise loop_bound
  settle_all (suc fuel) (n ∷ ns) rows edges = do
    pass ← settle (n ∷ ns) rows edges
    after_pass (settle_all fuel) pass

  unfoldable pub next_node : Rows → Routes → Action Settled
  unfolding settle_all
  next_node rows edges =
      let remaining = remaining_nodes rows graph.nodes in
      settle_all (length remaining) remaining rows edges

-- The edges out of a node that has completed; a condition chooses those with the label of its route.
unfoldable pub complete_outgoing : StepRun → Option String → List (ℕ × Edge) → Routes → Routes
complete_outgoing step route [] edges = edges
complete_outgoing step route (p ∷ ps) edges = complete_outgoing step route ps (
    if str_eq p.1.source step.node_id
    then put_route p.0
        (if not (str_eq step.step_type "condition") || same_label p.1.label route
          then selected
          else skipped)
        edges
    else edges)
