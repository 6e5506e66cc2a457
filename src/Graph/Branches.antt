-- ===== src/Graph/Branches.antt =====
-- services/parallel_graph.py: the branch of each node, and whether a graph has parallel nodes.
pub mod Ends
use Prim.Native.String.{count, ◌++◌}
use agentops_workflow_platfo.Base.{
  ℕ, zero, suc, String, str_eq, Bool, true, false, not, Option, none, some, List, [], ◌∷◌, any,
  length, ltb, if◌then◌else◌,
}
use agentops_workflow_platfo.Engine.World.{
  Node, Edge, ParallelBranch, Config, condition_config, fork_config, join_config, transform_config,
  other_config, WorkflowGraph,
}
use agentops_workflow_platfo.Graph.Order.{outgoing, find_config}

-- `paths`, a dict from node to branch
abbrev pub Paths : Type 0
Paths = String → Option String

-- The dict as a visit leaves it, a ValueError, or a recursion deeper than the fuel.
pub data Visited : Type 0 where
  visited : Paths → Visited
  refused : Visited
  exhausted : Visited

abbrev pub then_visit : Visited → (Paths → Visited) → Visited
then_visit refused next = refused
then_visit exhausted next = exhausted
then_visit (visited paths) next = next paths

-- f"{path}/{key}:{branch.name}"
abbrev pub branch_path : String → String → ParallelBranch → String
branch_path path key branch = path ++ "/" ++ key ++ ":" ++ branch.name

abbrev pub is_stop : String → Option String → Bool
is_stop key none = false
is_stop key (some stop) = str_eq key stop

-- The recursive calls of `visit`, whose arguments are the key, the stop, the path and the dict.
abbrev pub Visit : Type 0
Visit = String → Option String → String → Paths → Visited

abbrev pub visit_branches : Visit → String → String → String → List ParallelBranch → Paths → Visited
visit_branches visit key join path [] paths = visited paths
visit_branches visit key join path (b ∷ bs) paths =
    then_visit (visit b.entry_node (some join) (branch_path path key b) paths)
      (visit_branches visit key join path bs)

abbrev pub visit_targets : Visit → Option String → String → List Edge → Paths → Visited
visit_targets visit stop path [] paths = visited paths
visit_targets visit stop path (e ∷ es) paths =
    then_visit (visit e.target stop path paths) (visit_targets visit stop path es)

abbrev pub visit_next :
    Visit → Config → String → Option String → String → List Edge → Paths → Visited
visit_next visit (fork_config branches join) key stop path es paths =
    then_visit (visit_branches visit key join path branches paths) (visit join stop path)
visit_next visit _ key stop path es paths = visit_targets visit stop path es paths

abbrev pub set_path : String → String → Paths → Paths
set_path key path paths k = if str_eq key k then some path else paths k

abbrev pub seen_again : String → String → Paths → Visited
seen_again before path paths = if str_eq before path then visited paths else refused

module _ (g : WorkflowGraph) where
  abbrev pub visit_new : Visit → Option String → String → Option String → String → Paths → Visited
  visit_new visit (some before) key stop path paths = seen_again before path paths
  visit_new visit none key stop path paths =
      visit_next visit (find_config key g.nodes) key stop path (outgoing g.edges key)
        (set_path key path paths)

  unfoldable pub visit : ℕ → Visit
  visit zero key stop path paths = exhausted
  visit (suc fuel) key stop path paths =
      let further = visit_new (visit fuel) (paths key) key stop path paths in
      if is_stop key stop then visited paths else if ltb 256 (count path) then refused else further

  unfoldable pub branch_paths : Visited
  unfolding visit
  branch_paths = visit (suc (length g.nodes)) g.entry_node none "main" (λ key. none)

abbrev is_parallel : Config → Bool
is_parallel (fork_config branches join) = true
is_parallel (join_config fork) = true
is_parallel _ = false

unfoldable pub has_parallel : WorkflowGraph → Bool
has_parallel g = any (λ n. is_parallel n.config) g.nodes
