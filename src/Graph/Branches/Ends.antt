-- ===== src/Graph/Branches/Ends.antt =====
-- `branch_paths` ends within its fuel.
use mathlib.Core.Bool.{false≢true}
use Prim.Native.String.{count}
use agentops_workflow_platfo.Base.{
  both, ℕ, zero, suc, ◌+◌, ◌≤◌, ◌<◌, String, str_eq, eq_iff, ◌≡◌, refl, sym, subst, Bool, true,
  false, ◌&&◌, Option, none, some, List, [], ◌∷◌, all, length, ltb, arith, Bool-cases, Option-cases,
  inl, inr, if◌then◌else◌, is_some,
}
use agentops_workflow_platfo.Engine.World.{
  Node, Edge, ParallelBranch, Config, condition_config, fork_config, join_config, transform_config,
  other_config, WorkflowGraph,
}
use agentops_workflow_platfo.Graph.Order.{member, ids, outgoing, find_config}
use agentops_workflow_platfo.Graph.Order.Sound.{all-select}
use agentops_workflow_platfo.Graph.Branches.{
  Paths, Visited, visited, refused, exhausted, then_visit, branch_path, is_stop, Visit,
  visit_branches, visit_targets, visit_next, set_path, seen_again, visit_new, visit, branch_paths,
}

-- The nodes that have no branch yet.
abbrev unvisited : Paths → List String → ℕ
unvisited paths [] = 0
unvisited paths (x ∷ xs) = (if is_some (paths x) then 0 else 1) + unvisited paths xs

set_path-le :
    (key path : String) (paths : Paths) (xs : List String)
    → unvisited (set_path key path paths) xs ≤ unvisited paths xs
set_path-le key path paths [] = omega arith
set_path-le key path paths (x ∷ xs) = ground (arith, set_path-le key path paths xs)

set_path-lt :
    (key path : String) (paths : Paths) (xs : List String)
    → member key xs ≡ true
    → paths key ≡ none
    → unvisited (set_path key path paths) xs < unvisited paths xs
set_path-lt key path paths [] m n = absurd (false≢true m)
set_path-lt key path paths (x ∷ xs) m n = elim (Bool-cases (str_eq x key)) [
  | inr miss ↦
      omega
        (arith, set_path-lt key path paths xs (rw miss at m) n, set_path-le key path paths (x ∷ []))
  | inl hit ↦
      let same = sym ((eq_iff x key).0 hit) in
      rw ((eq_iff key x).1 same, subst (λ k. paths k ≡ none) same n)
        (omega (arith, set_path-le key path paths xs))
]

-- A visit ended, and no node has lost its branch.
data HasEnded (names : List String) (bound : ℕ) : Visited → Type 0 where
  stopped : HasEnded names bound refused
  grown : {paths : Paths} → unvisited paths names ≤ bound → HasEnded names bound (visited paths)

then_visit-HasEnded :
    (names : List String) (bound : ℕ) (o : Visited) (next : Paths → Visited)
    → HasEnded names bound o
    → ((paths : Paths) → unvisited paths names ≤ bound → HasEnded names bound (next paths))
    → HasEnded names bound (then_visit o next)
then_visit-HasEnded names bound exhausted next o h = elim o [ ]
then_visit-HasEnded names bound refused next stopped h = stopped
then_visit-HasEnded names bound (visited paths) next (grown less) h = h paths less

weaker :
    {names : List String} {a b : ℕ} {o : Visited} → a ≤ b → HasEnded names a o → HasEnded names b o
weaker le stopped = stopped
weaker le (grown less) = grown (omega (arith, le, less))

module _ (names : List String) (again : Visit) (bound : ℕ)
    (ends : (key : String) (stop : Option String) (path : String) (paths : Paths)
      → member key names ≡ true
      → unvisited paths names ≤ bound
      → HasEnded names (unvisited paths names) (again key stop path paths)) where
  ends-within :
      (key : String) (stop : Option String) (path : String) (paths : Paths) (b : ℕ)
      → b ≤ bound
      → member key names ≡ true
      → unvisited paths names ≤ b
      → HasEnded names b (again key stop path paths)
  ends-within key stop path paths b le m less =
      weaker less (ends key stop path paths m (omega (arith, le, less)))

  visit_targets-HasEnded :
      (stop : Option String) (path : String) (es : List Edge) (paths : Paths) (b : ℕ)
      → b ≤ bound
      → all (λ e. member e.target names) es ≡ true
      → unvisited paths names ≤ b
      → HasEnded names b (visit_targets again stop path es paths)
  visit_targets-HasEnded stop path [] paths b le m less = grown less
  visit_targets-HasEnded stop path (e ∷ es) paths b le m less =
      then_visit-HasEnded names b _ _
        (ends-within e.target stop path paths b le (both {a = member e.target names} m).0 less)
        (λ paths' less'.
          visit_targets-HasEnded stop path es paths' b le (both {a = member e.target names} m).1
            less')

  visit_branches-HasEnded :
      (key join path : String) (bs : List ParallelBranch) (paths : Paths) (b : ℕ)
      → b ≤ bound
      → all (λ c. member c.entry_node names) bs ≡ true
      → unvisited paths names ≤ b
      → HasEnded names b (visit_branches again key join path bs paths)
  visit_branches-HasEnded key join path [] paths b le m less = grown less
  visit_branches-HasEnded key join path (c ∷ cs) paths b le m less =
      then_visit-HasEnded names b _ _
        (ends-within c.entry_node (some join) (branch_path path key c) paths b le
          (both {a = member c.entry_node names} m).0 less)
        (λ paths' less'.
          visit_branches-HasEnded key join path cs paths' b le
            (both {a = member c.entry_node names} m).1 less')

abbrev HasForks : WorkflowGraph → Type 0
HasForks g =
    (key : String) (branches : List ParallelBranch) (join : String)
    → find_config key g.nodes ≡ fork_config branches join
    → (all (λ b. member b.entry_node (ids g.nodes)) branches ≡ true)
      × (member join (ids g.nodes) ≡ true)

module _ (g : WorkflowGraph) (known : all (λ e. member e.target (ids g.nodes)) g.edges ≡ true)
    (forks : HasForks g) where
  abbrev Ends : ℕ → Visit → Type 0
  Ends bound again =
      (key : String) (stop : Option String) (path : String) (paths : Paths)
      → member key (ids g.nodes) ≡ true
      → unvisited paths (ids g.nodes) ≤ bound
      → HasEnded (ids g.nodes) (unvisited paths (ids g.nodes)) (again key stop path paths)

  targets : (key : String) → all (λ e. member e.target (ids g.nodes)) (outgoing g.edges key) ≡ true
  targets key =
      all-select (λ e. member e.target (ids g.nodes)) (λ e. str_eq e.source key) g.edges known

  visit_next-HasEnded :
      (again : Visit) (bound : ℕ) (c : Config) (key : String) (stop : Option String) (path : String)
      (paths : Paths)
      → Ends bound again
      → find_config key g.nodes ≡ c
      → unvisited paths (ids g.nodes) ≤ bound
      → HasEnded
          (ids g.nodes)
          (unvisited paths (ids g.nodes))
          (visit_next again c key stop path (outgoing g.edges key) paths)
  visit_next-HasEnded again bound (fork_config branches join) key stop path paths ends e less =
      let (entries, at_join) = forks key branches join e in
      then_visit-HasEnded (ids g.nodes) _ _ _
        (visit_branches-HasEnded (ids g.nodes) again bound ends key join path branches paths
          (unvisited paths (ids g.nodes)) less entries (omega arith))
        (λ paths' less'.
          ends-within (ids g.nodes) again bound ends join stop path paths'
            (unvisited paths (ids g.nodes)) less at_join less')
  visit_next-HasEnded again bound (join_config fork) key stop path paths ends e less =
      visit_targets-HasEnded (ids g.nodes) again bound ends stop path (outgoing g.edges key) paths _
        less (targets key) (omega arith)
  visit_next-HasEnded again bound (condition_config cases fallback) key stop path paths ends e
        less =
      visit_targets-HasEnded (ids g.nodes) again bound ends stop path (outgoing g.edges key) paths _
        less (targets key) (omega arith)
  visit_next-HasEnded again bound (transform_config assign) key stop path paths ends e less =
      visit_targets-HasEnded (ids g.nodes) again bound ends stop path (outgoing g.edges key) paths _
        less (targets key) (omega arith)
  visit_next-HasEnded again bound other_config key stop path paths ends e less =
      visit_targets-HasEnded (ids g.nodes) again bound ends stop path (outgoing g.edges key) paths _
        less (targets key) (omega arith)

  again-HasEnded :
      (before path : String) (paths : Paths)
      → HasEnded (ids g.nodes) (unvisited paths (ids g.nodes)) (seen_again before path paths)
  again-HasEnded before path paths = elim (Bool-cases (str_eq before path)) [
    | inl same ↦ rw same (grown (omega arith))
    | inr other ↦ rw other stopped
  ]

  visit_new-HasEnded :
      (again : Visit) (bound : ℕ) (o : Option String) (key : String) (stop : Option String)
      (path : String) (paths : Paths)
      → Ends bound again
      → paths key ≡ o
      → member key (ids g.nodes) ≡ true
      → unvisited paths (ids g.nodes) ≤ suc bound
      → HasEnded
          (ids g.nodes)
          (unvisited paths (ids g.nodes))
          (visit_new g again o key stop path paths)
  visit_new-HasEnded again bound (some before) key stop path paths ends e m less =
      again-HasEnded before path paths
  visit_new-HasEnded again bound none key stop path paths ends e m less =
      let fewer = set_path-lt key path paths (ids g.nodes) m e in
      weaker (omega (arith, fewer)) (
        visit_next-HasEnded again bound (find_config key g.nodes) key stop path
          (set_path key path paths) ends refl (omega (arith, fewer, less)))

  body-HasEnded :
      (fuel : ℕ) (key : String) (stop : Option String) (path : String) (paths : Paths)
      → HasEnded
          (ids g.nodes)
          (unvisited paths (ids g.nodes))
          (visit_new g (visit g fuel) (paths key) key stop path paths)
      → HasEnded
          (ids g.nodes)
          (unvisited paths (ids g.nodes))
          (visit g (suc fuel) key stop path paths)
  unfolding visit
  body-HasEnded fuel key stop path paths new = elim (Bool-cases (is_stop key stop)) [
    | inl stop_here ↦ rw stop_here (grown (omega arith))
    | inr on ↦ elim (Bool-cases (ltb 256 (count path))) [
      | inl long ↦ rw (on, long) stopped
      | inr short ↦ rw (on, short) new
    ]
  ]

  -- With one more level than nodes without a branch, a visit is not cut off.
  visit-HasEnded : (bound : ℕ) → Ends bound (visit g (suc bound))
  visit-HasEnded zero key stop path paths m less = elim (Option-cases (paths key)) [
    | inl fresh ↦ absurd (omega (arith, less, set_path-lt key path paths (ids g.nodes) m fresh))
    | inr (before, old) ↦
        body-HasEnded 0 key stop path paths (rw old (again-HasEnded before path paths))
  ]
  visit-HasEnded (suc bound) key stop path paths m less =
      body-HasEnded (suc bound) key stop path paths (
        visit_new-HasEnded (visit g (suc bound)) bound (paths key) key stop path paths
          (visit-HasEnded bound) refl m less)

abbrev pub is_exhausted : Visited → Bool
is_exhausted (visited paths) = false
is_exhausted refused = false
is_exhausted exhausted = true

ended :
    {names : List String} {bound : ℕ} {o : Visited}
    → HasEnded names bound o
    → is_exhausted o ≡ false
ended stopped = refl
ended (grown less) = refl

ids-unvisited : (nodes : List Node) → unvisited (λ key. none) (ids nodes) ≡ length nodes
ids-unvisited [] = refl
ids-unvisited (n ∷ ns) = omega (arith, ids-unvisited ns)

-- A fork names entries of branches and a join that are nodes.
abbrev pub is_fork_known : List String → Config → Bool
is_fork_known names (fork_config branches join) =
    all (λ b. member b.entry_node names) branches && member join names
is_fork_known names _ = true

find_config-known :
    (names : List String) (key : String) (ns : List Node)
    → all (λ n. is_fork_known names n.config) ns ≡ true
    → is_fork_known names (find_config key ns) ≡ true
find_config-known names key [] h = refl
find_config-known names key (n ∷ ns) h = elim (Bool-cases (str_eq n.id key)) [
  | inl hit ↦ rw hit (both {a = is_fork_known names n.config} h).0
  | inr miss ↦
      rw miss (find_config-known names key ns (both {a = is_fork_known names n.config} h).1)
]

known-HasForks :
    (g : WorkflowGraph)
    → all (λ n. is_fork_known (ids g.nodes) n.config) g.nodes ≡ true
    → HasForks g
known-HasForks g h key branches join e =
    both {a = all (λ b. member b.entry_node (ids g.nodes)) branches} (
      subst (λ c. is_fork_known (ids g.nodes) c ≡ true) e
        (find_config-known (ids g.nodes) key g.nodes h))

-- When the edges and the forks of a graph lead to its nodes and its entry is one of them, `branch_paths`
-- ends with the branches or a ValueError: its recursion is no deeper than the graph has nodes, and one.
pub branch_paths-ends :
    (g : WorkflowGraph)
    → member g.entry_node (ids g.nodes) ≡ true
    → all (λ e. member e.target (ids g.nodes)) g.edges ≡ true
    → all (λ n. is_fork_known (ids g.nodes) n.config) g.nodes ≡ true
    → is_exhausted (branch_paths g) ≡ false
unfolding branch_paths
branch_paths-ends g entry known forks = ended (
    visit-HasEnded g known (known-HasForks g forks) (length g.nodes) g.entry_node none "main"
      (λ key. none) entry (omega (arith, ids-unvisited g.nodes)))
