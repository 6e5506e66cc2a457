-- ===== src/Engine/Routing/Valid.antt =====
-- What the validation of a graph gives to its interpreter.
use mathlib.Core.List.{Memᴰ}
use mathlib.Core.List.Memᴰ.{head, tail}
use agentops_workflow_platfo.Base.{
  both, ℕ, suc, String, str_eq, ◌≡◌, refl, ap, subst, true, ◌&&◌, ◌||◌, List, [], ◌∷◌, any,
}
use agentops_workflow_platfo.Engine.World.{Node, Edge, WorkflowGraph}
use agentops_workflow_platfo.Graph.Order.{member, ids, identities, acyclic}
use agentops_workflow_platfo.Graph.Order.Rank.{all-Mem, identities-Identified, acyclic-Upward}
use agentops_workflow_platfo.Engine.Routing.{Routes, Rows, numbered, next_node}
use agentops_workflow_platfo.Engine.Routing.Answers.{Answers}
use agentops_workflow_platfo.Engine.Routing.Progress.{has_id}
use agentops_workflow_platfo.Engine.Routing.Due.{Progressed}
use agentops_workflow_platfo.Engine.Routing.Live.{next_node-Progressed}
use agentops_workflow_platfo.Engine.Routing.Verdicts.{Taken, Agrees}

numbered-Mem : (i : ℕ) (es : List Edge) (p : ℕ × Edge) → Memᴰ p (numbered i es) → Memᴰ p.1 es
numbered-Mem i [] p m = elim m [ ]
numbered-Mem i (e ∷ es) p (head here) = head (ap (λ q. q.1) here)
numbered-Mem i (e ∷ es) p (tail m) = tail (numbered-Mem (suc i) es p m)

member-any : (x : String) (nodes : List Node) → member x (ids nodes) ≡ any (has_id x) nodes
member-any x [] = refl
member-any x (n ∷ ns) = ap (λ b. str_eq n.id x || b) (member-any x ns)

-- A graph that has passed the identity checks and the check for cycles never stalls `next_node`.
pub next_node-acyclic :
    (g : WorkflowGraph) (taken : Taken) (rows : Rows) (edges : Routes)
    → identities g ≡ true
    → acyclic g ≡ true
    → Agrees (numbered 0 g.edges) taken rows edges
    → Answers (next_node g rows edges) (Progressed g taken rows)
next_node-acyclic g taken rows edges i a agrees =
    let order = acyclic-Upward g i a in
    next_node-Progressed g taken order.rank (λ p m. order.up p.1 (numbered-Mem 0 g.edges p m))
      (λ p m.
        subst (λ b. b ≡ true) (member-any p.1.source g.nodes)
          (both (
            all-Mem (λ e. member e.source (ids g.nodes) && member e.target (ids g.nodes)) g.edges
              p.1 (identities-Identified g i).ends (numbered-Mem 0 g.edges p m))).0)
      rows edges agrees
