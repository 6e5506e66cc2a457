-- ===== src/Graph/Region.antt =====
-- `validate_region` (services/graph_validation.py): the branches between a fork and its join.
pub mod Search
pub mod Separate
pub mod Ends
use agentops_workflow_platfo.Base.{
  ℕ, zero, suc, String, str_eq, Bool, true, false, not, ◌&&◌, ◌||◌, Option, none, some, List, [],
  ◌∷◌, ◌++◌, map, any, all, length, ◌==◌, if◌then◌else◌,
}
use agentops_workflow_platfo.Engine.World.{
  Node, Edge, ParallelBranch, Config, condition_config, fork_config, join_config, transform_config,
  other_config, WorkflowGraph,
}
use agentops_workflow_platfo.Graph.Order.{
  member, distinct, ids, same_label, outgoing, incoming, push_all, find_config,
}

-- The nodes of a branch, a branch that ends before its join, or a loop that the fuel did not finish.
pub data Explored : Type 0 where
  explored : List String → Explored
  dead_end : Explored
  cut_off : Explored

abbrev pub next_region : List Edge → Explored → Explored
next_region [] further = dead_end
next_region (e ∷ es) further = further

module _ (es : List Edge) (join : String) where
  -- `while pending:`
  unfoldable pub explore : ℕ → List String → List String → Explored
  explore fuel [] region = explored region
  explore zero (key ∷ pending) region = cut_off
  explore (suc fuel) (key ∷ pending) region =
      let again = explore fuel pending region in
      let further = explore fuel (push_all (outgoing es key) pending) (key ∷ region) in
      if str_eq join key || member key region then again else next_region (outgoing es key) further

  abbrev pub overlap : List String → List String → Bool
  overlap region nodes = any (λ key. member key nodes) region

  -- edge.source not in region | {fork.id} for key in region for edge in incoming[key]
  abbrev pub entered : String → List String → Bool
  entered fork region =
      any
        (λ key.
          any (λ e. not (member e.source region) && not (str_eq e.source fork)) (incoming es key))
        region

  abbrev pub with_region : String → List String → Explored → Option (List String)
  with_region fork nodes dead_end = none
  with_region fork nodes cut_off = none
  with_region fork nodes (explored region) =
      if overlap region nodes || entered fork region then none else some (region ++ nodes)

  abbrev pub branch_nodes : String → List String → ParallelBranch → Option (List String)
  branch_nodes fork nodes b =
      let found = with_region fork nodes (explore (suc (length es)) (b.entry_node ∷ []) []) in
      if str_eq b.entry_node join then none else found

  abbrev pub and_then :
      Option (List String) → (List String → Option (List String)) → Option (List String)
  and_then none again = none
  and_then (some nodes) again = again nodes

  -- `all_nodes` after the loop over the branches
  unfoldable pub branches_nodes : String → List ParallelBranch → List String → Option (List String)
  unfolding explore
  branches_nodes fork [] nodes = some nodes
  branches_nodes fork (b ∷ bs) nodes = and_then (branch_nodes fork nodes b) (branches_nodes fork bs)

-- (edge.label, edge.target) == (branch.name, branch.entry_node)
abbrev pub is_branch_edge : ParallelBranch → Edge → Bool
is_branch_edge b e = same_label e.label (some b.name) && str_eq e.target b.entry_node

abbrev pub branches_match : List ParallelBranch → List Edge → Bool
branches_match branches es =
    distinct (map (λ b. b.name) branches)
    && distinct (map (λ b. b.entry_node) branches)
    && all (λ b. any (is_branch_edge b) es) branches
    && all (λ e. any (λ b. is_branch_edge b e) branches) es

abbrev pub is_join_of : String → Config → Bool
is_join_of fork (join_config f) = str_eq f fork
is_join_of fork _ = false

abbrev pub closes : List Edge → Option (List String) → Bool
closes es none = false
closes es (some nodes) = all (λ e. member e.source nodes) es

unfoldable pub region_ok : WorkflowGraph → String → List ParallelBranch → String → Bool
unfolding branches_nodes
region_ok g fork branches join =
    is_join_of fork (find_config join g.nodes)
    && branches_match branches (outgoing g.edges fork)
    && closes (incoming g.edges join) (branches_nodes g.edges join fork branches [])
