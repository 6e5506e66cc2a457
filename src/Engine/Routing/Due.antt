-- ===== src/Engine/Routing/Due.antt =====
-- What `next_node` of services/graph_interpreter.py promises of the node that it gives.
use mathlib.Core.List.{Memᴰ}
use mathlib.Core.List.Memᴰ.{head, tail}
use agentops_workflow_platfo.Base.{
  both, not, ◌&&◌, if◌then◌else◌, ◌∙◌, ℕ, ◌⊎◌, String, str_eq, ◌≡◌, refl, sym, subst, Bool, true,
  false, none, some, [], ◌∷◌, any, arith, inl, inr, is_some,
}
use agentops_workflow_platfo.Engine.World.{Node, Edge, WorkflowGraph}
use agentops_workflow_platfo.Engine.Routing.{
  Routes, Rows, numbered, ready_now, undecided, unreachable, reading, is_open, is_selected,
  is_chosen, Settled,
}
use agentops_workflow_platfo.Engine.Routing.Progress.{has_id, any-Mem}
use agentops_workflow_platfo.Engine.Routing.Verdicts.{
  Edges, Taken, Agrees, Agrees-is_some, IsTaken, Agrees-IsTaken,
}

-- The node is the entry, or every edge into it leaves a node with a row and one of them is an edge that
-- its step leads along.
pub data IsDue (entry : String) (es : Edges) (taken : Taken) (rows : Rows) (key : String)
    : Type 0 where
  entered : str_eq key entry ≡ true → IsDue entry es taken rows key
  led :
      ((p : ℕ × Edge) → Memᴰ p es → str_eq p.1.target key ≡ true → is_some (rows p.1.source) ≡ true)
      → (p : ℕ × Edge) → Memᴰ p es
      → str_eq p.1.target key ≡ true
      → IsTaken (rows p.1.source) (taken p.1.source) p.1
      → IsDue entry es taken rows key

none-any :
    (f : ℕ × Edge → Bool) (es : Edges) (p : ℕ × Edge) → any f es ≡ false → Memᴰ p es → f p ≡ false
none-any f [] p h m = elim m [ ]
none-any f (q ∷ qs) p h (head here) = subst (λ x. f x ≡ false) (sym here) (ground (arith, h))
none-any f (q ∷ qs) p h (tail m) = none-any f qs p (ground (arith, h)) m

due_tests :
    (first held ready : Bool)
    → (if first
        then ready_now
        else if held
        then undecided
        else if ready
        then ready_now
        else unreachable)
      ≡ ready_now
    → (first ≡ true) ⊎ ((held ≡ false) × (ready ≡ true))
due_tests true held ready h = inl refl
due_tests false true ready h = absurd (ground (arith, h))
due_tests false false true h = inr (refl, refl)
due_tests false false false h = absurd (ground (arith, h))

pub reading-IsDue :
    (entry : String) (es : Edges) (taken : Taken) (rows : Rows) (edges : Routes) (key : String)
    → Agrees es taken rows edges
    → reading entry es edges key ≡ ready_now
    → IsDue entry es taken rows key
unfolding reading
reading-IsDue entry es taken rows edges key a r =
    elim (due_tests (str_eq key entry) (is_open edges key es) (is_selected edges key es) r) [
      | inl first ↦ entered first
      | inr (settled, ready) ↦
          let (p, m, t) = any-Mem (λ p. str_eq p.1.target key && is_chosen (edges p.0)) es ready in
          led
            (λ q k into.
              sym (Agrees-is_some es taken rows edges a q k)
              ∙ ground (
                arith,
                into,
                none-any (λ p. str_eq p.1.target key && not (is_some (edges p.0))) es q settled k,
              ))
            p m (both t).0 (Agrees-IsTaken es taken rows edges a p m (both t).1)
    ]

-- A node to run that had no row and is due, or a row for every node of the graph, with edges that agree
-- with the rows.
pub data Progressed (g : WorkflowGraph) (taken : Taken) (rows : Rows) : Settled → Type 0 where
  runs :
      {n : Node} {rows' : Rows} {edges' : Routes}
      → Agrees (numbered 0 g.edges) taken rows' edges'
      → IsDue g.entry_node (numbered 0 g.edges) taken rows' n.id
      → any (has_id n.id) g.nodes ≡ true
      → is_some (rows n.id) ≡ false
      → Progressed g taken rows (record { node = some n; rows = rows'; edges = edges' })
  ends :
      {rows' : Rows} {edges' : Routes}
      → Agrees (numbered 0 g.edges) taken rows' edges'
      → ((s : String) → any (has_id s) g.nodes ≡ true → is_some (rows' s) ≡ true)
      → Progressed g taken rows (record { node = none; rows = rows'; edges = edges' })
