-- ===== src/Graph/Quality.antt =====
-- The nodes that a quality revision runs again: `affected_nodes` and `iteration_for` of
-- services/quality_revisions.py, and the policy's part of `validate_graph_contract`.
use agentops_workflow_platfo.Base.{
  ℕ, suc, String, str_eq, ◌≡◌, ◌↔◌, refl, ap, ◌∙◌, Bool-cases, inl, inr, Bool, true, not, ◌&&◌,
  ◌||◌, Option, none, some, List, [], ◌∷◌, any, all, length, if◌then◌else◌,
}
use agentops_workflow_platfo.Engine.World.{Edge, QualityRevisionPolicy, WorkflowGraph}
use agentops_workflow_platfo.Graph.Order.{member, distinct, ids, incoming, outgoing, reach, Sorting}
use agentops_workflow_platfo.Graph.Order.Search.{Reachable, reach-Reachable}

-- The loop of `affected_nodes` is the search of the validation, from the policy's entry.
unfoldable pub affected_from : Option QualityRevisionPolicy → List Edge → Option (List String)
unfolding reach
affected_from none es = some []
affected_from (some policy) es = reach (suc (length es)) es (policy.entry_node ∷ []) []

abbrev pub affected_nodes : WorkflowGraph → Option (List String)
affected_nodes g = affected_from g.quality_revision g.edges

-- `iteration` is checkpoint_json["quality"]["iteration"], or 0.
abbrev pub iteration_in : ℕ → Option (List String) → String → Option ℕ
iteration_in iteration none node_id = none
iteration_in iteration (some affected) node_id =
    some (if member node_id affected then iteration else 0)

abbrev pub iteration_for : ℕ → WorkflowGraph → String → Option ℕ
iteration_for iteration g node_id = iteration_in iteration (affected_nodes g) node_id

-- `region` is what is left of the policy's nodes without the node that the edges may cross.
abbrev pub crossed_by : (Edge → String) → (String → List Edge) → List String → String → Bool
crossed_by end_of edges_of region except =
    any (λ key. not (str_eq key except) && any (λ e. not (member (end_of e) region)) (edges_of key))
      region

abbrev pub policy_fits : WorkflowGraph → Sorting → QualityRevisionPolicy → Bool
policy_fits g s policy =
    distinct policy.nodes
    && all (λ key. member key (ids g.nodes)) policy.nodes
    && member policy.entry_node policy.nodes
    && member policy.review_node policy.nodes
    && s.ancestors policy.review_node policy.entry_node
    && all (λ key. str_eq key policy.entry_node || s.ancestors key policy.entry_node) policy.nodes
    && all (λ key. str_eq key policy.review_node || s.ancestors policy.review_node key) policy.nodes
    && not (crossed_by (λ e. e.source) (incoming g.edges) policy.nodes policy.entry_node)
    && not (crossed_by (λ e. e.target) (outgoing g.edges) policy.nodes policy.review_node)

abbrev policy_accepted : WorkflowGraph → Sorting → Option QualityRevisionPolicy → Bool
policy_accepted g s none = true
policy_accepted g s (some policy) = policy_fits g s policy

unfoldable pub quality_ok : WorkflowGraph → Sorting → Bool
quality_ok g s = policy_accepted g s g.quality_revision

affected_from-Reachable :
    (policy : QualityRevisionPolicy) (es : List Edge)
    → (affected : List String) × (affected_from (some policy) es ≡ some affected)
      × ((x : String) → (member x affected ≡ true) ↔ ∥ Reachable policy.entry_node es x ∥₁)
unfolding affected_from
affected_from-Reachable policy es = reach-Reachable policy.entry_node es

-- Under a policy the search for the affected nodes ends within its fuel. A node runs in the iteration of
-- the revisions if a path leads to it from the policy's entry, and in iteration 0 if none does.
pub iteration_for-Reachable :
    (iteration : ℕ) (g : WorkflowGraph) (policy : QualityRevisionPolicy) (x : String)
    → g.quality_revision ≡ some policy
    → (i : ℕ) × (iteration_for iteration g x ≡ some i)
      × (∥ Reachable policy.entry_node g.edges x ∥₁ → i ≡ iteration)
      × (¬ ∥ Reachable policy.entry_node g.edges x ∥₁ → i ≡ 0)
iteration_for-Reachable iteration g policy x q =
    let (affected, found, iff) = affected_from-Reachable policy g.edges in
    (
      if member x affected then iteration else 0,
      ap (λ a. iteration_in iteration a x) (ap (λ p. affected_from p g.edges) q ∙ found),
      (λ r. rw ((iff x).1 r) refl),
      (λ n. outside affected x iteration (λ m. n ((iff x).0 m))),
    )
  where
    outside :
        (affected : List String) (x : String) (iteration : ℕ)
        → (member x affected ≡ true → ⊥)
        → (if member x affected then iteration else 0) ≡ 0
    outside affected x iteration n = elim (Bool-cases (member x affected)) [
      | inl m ↦ absurd (n m)
      | inr m ↦ rw m refl
    ]
