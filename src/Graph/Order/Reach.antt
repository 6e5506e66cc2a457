-- ===== src/Graph/Order/Reach.antt =====
-- The search from the entry finds the reachable nodes, within its fuel.
use mathlib.Core.Bool.{false≢true}
use mathlib.Core.Logic.{∥∥₁_elim}
use agentops_workflow_platfo.Base.{
  both, String, str_eq, eq_iff, ◌≡◌, refl, subst, Bool, true, ◌&&◌, ◌↔◌, some, List, [], ◌∷◌, all,
  arith, Bool-cases, inl, inr,
}
use agentops_workflow_platfo.Engine.World.{WorkflowGraph}
use agentops_workflow_platfo.Graph.Order.{member, ids, is_whole, all_reached, identities}
use agentops_workflow_platfo.Graph.Order.Search.{Reachable, at_entry, along, reach-Reachable}
use agentops_workflow_platfo.Graph.Order.Rank.{all-Mem, Identified, identities-Identified}

pub from_all :
    (p : String → Bool) (xs : List String)
    → all p xs ≡ true
    → (x : String) → member x xs ≡ true
    → p x ≡ true
from_all p [] h x m = absurd (false≢true m)
from_all p (y ∷ ys) h x m = elim (Bool-cases (str_eq y x)) [
  | inl hit ↦ subst (λ k. p k ≡ true) ((eq_iff y x).0 hit) (both {a = p y} h).0
  | inr miss ↦ from_all p ys (both {a = p y} h).1 x (rw miss at m)
]

to_all :
    (p : String → Bool) (xs : List String)
    → ((x : String) → member x xs ≡ true → p x ≡ true)
    → all p xs ≡ true
to_all p [] h = refl
to_all p (y ∷ ys) h =
    let now = h y (ground (arith, (eq_iff y y).1 refl)) in
    ground (arith, now, to_all p ys λ x m. h x (ground (arith, m)))

Reachable-member :
    (g : WorkflowGraph)
    → Identified g
    → (x : String) → Reachable g.entry_node g.edges x
    → member x (ids g.nodes) ≡ true
Reachable-member g known x at_entry = known.entry
Reachable-member g known x (along e m r) =
    (both {a = member e.source (ids g.nodes)} (
      all-Mem (λ d. member d.source (ids g.nodes) && member d.target (ids g.nodes)) g.edges e
        known.ends m)).1

whole :
    (names found : List String)
    → ((x : String) → member x names ≡ true → member x found ≡ true)
    → ((x : String) → member x found ≡ true → member x names ≡ true)
    → all (λ x. member x found) names && all (λ x. member x names) found ≡ true
whole names found a b =
    ground (arith, to_all (λ x. member x found) names a, to_all (λ x. member x names) found b)

judged :
    (g : WorkflowGraph) (found : List String)
    → Identified g
    → ((x : String) → (member x found ≡ true) ↔ ∥ Reachable g.entry_node g.edges x ∥₁)
    → (is_whole (ids g.nodes) (some found) ≡ true)
      ↔ ((x : String) → member x (ids g.nodes) ≡ true → ∥ Reachable g.entry_node g.edges x ∥₁)
judged g found i iff = (
  (λ h x m. (iff x).0 (from_all (λ y. member y found) (ids g.nodes) (both h).0 x m)),
  (λ h.
      whole (ids g.nodes) found (λ x m. (iff x).1 (h x m))
        (λ x m. ∥∥₁_elim ((iff x).0 m) (hlevel) (Reachable-member g i x))),
)

-- For a graph that has passed the identity checks, the search for unreachable nodes ends within its
-- fuel, and it accepts the graph if and only if a path of edges leads from the entry to every node.
pub all_reached-Reachable :
    (g : WorkflowGraph)
    → identities g ≡ true
    → (all_reached g ≡ true)
      ↔ ((x : String) → member x (ids g.nodes) ≡ true → ∥ Reachable g.entry_node g.edges x ∥₁)
unfolding all_reached
all_reached-Reachable g i =
    let (found, e, iff) = reach-Reachable g.entry_node g.edges in
    rw e (judged g found (identities-Identified g i) iff)
