-- ===== src/Examples/Regions.antt =====
-- The theorems on parallel regions, for a fork with two branches of one node.
use agentops_workflow_platfo.Base.{
  ℕ, ◌≡◌, refl, true, false, none, some, List, [], ◌∷◌, length, suc,
}
use agentops_workflow_platfo.Engine.World.{
  QualityRevisionPolicy, ParallelBranch, WorkflowGraph, fork_config, join_config,
}
use agentops_workflow_platfo.Graph.Order.Search.{Reachable}
use agentops_workflow_platfo.Graph.Quality.{iteration_for, iteration_for-Reachable}
use agentops_workflow_platfo.Graph.Branches.{branch_paths}
use agentops_workflow_platfo.Graph.Branches.Ends.{is_exhausted, branch_paths-ends}
use agentops_workflow_platfo.Graph.Region.{region_ok, explore, branches_nodes}
use agentops_workflow_platfo.Graph.Region.Separate.{AreSeparate, region_ok-AreSeparate}
use agentops_workflow_platfo.Graph.Region.Ends.{is_cut_off, explore-entry}
use agentops_workflow_platfo.Examples.Rows.{any_object, draft}

abbrev branches : List ParallelBranch
branches =
    record { name = "left"; entry_node = "write" }
    ∷ record { name = "right"; entry_node = "draw" }
    ∷ []

abbrev forked : WorkflowGraph
forked = record {
  entry_node = "split";
  input_schema = any_object;
  output_schema = any_object;
  outputs = [];
  quality_revision = none;
  nodes =
      record draft { id = "split"; type = "parallel"; config = fork_config branches "merge" }
      ∷ record draft { id = "write" }
      ∷ record draft { id = "draw" }
      ∷ record draft { id = "merge"; type = "parallel"; config = join_config "split" }
      ∷ [];
  edges =
      record { source = "split"; target = "write"; label = some "left" }
      ∷ record { source = "split"; target = "draw"; label = some "right" }
      ∷ record { source = "write"; target = "merge"; label = none }
      ∷ record { source = "draw"; target = "merge"; label = none }
      ∷ [];
}

forked_region : region_ok forked "split" branches "merge" ≡ true
unfolding region_ok branches_nodes explore
forked_region = refl

region_ok-AreSeparate_example : AreSeparate forked.edges "merge" branches
region_ok-AreSeparate_example = region_ok-AreSeparate forked "split" "merge" branches forked_region

explore-entry_example :
    is_cut_off (explore forked.edges "merge" (suc (length forked.edges)) ("write" ∷ []) []) ≡ false
explore-entry_example = explore-entry forked.edges "merge" "write"

abbrev again : QualityRevisionPolicy
again = record {
  entry_node = "draw";
  review_node = "merge";
  nodes = "draw" ∷ "merge" ∷ [];
  max_revisions = 2;
}

-- A revision of the right branch and the join.
abbrev revised : WorkflowGraph
revised = record forked { quality_revision = some again }

iteration_for-Reachable_example :
    (i : ℕ) × (iteration_for 3 revised "merge" ≡ some i)
    × (∥ Reachable "draw" forked.edges "merge" ∥₁ → i ≡ 3)
    × (¬ ∥ Reachable "draw" forked.edges "merge" ∥₁ → i ≡ 0)
iteration_for-Reachable_example = iteration_for-Reachable 3 revised again "merge" refl

branch_paths-ends_example : is_exhausted (branch_paths forked) ≡ false
branch_paths-ends_example = branch_paths-ends forked refl refl refl
