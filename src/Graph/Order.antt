-- ===== src/Graph/Order.antt =====
-- The passes of `validate_graph_contract` (services/graph_validation.py) over the shape of a graph:
-- identities, reachability, and the topological order with ancestors and routing signatures.
pub mod Counts
pub mod Sound
pub mod Ends
pub mod Rank
pub mod Search
pub mod Reach
use agentops_workflow_platfo.Base.{
  ℕ, zero, suc, ◌+◌, String, str_eq, Bool, true, false, not, ◌&&◌, ◌||◌, Option, none, some, List,
  [], ◌∷◌, ◌++◌, map, any, all, select, length, ◌==◌, ltb, if◌then◌else◌,
}
use agentops_workflow_platfo.Engine.World.{
  Node, Edge, Config, condition_config, fork_config, join_config, transform_config, other_config,
  WorkflowGraph,
}

abbrev pub occurs : String → List String → ℕ
occurs x [] = 0
occurs x (y ∷ ys) = (if str_eq y x then 1 else 0) + occurs x ys

-- x in xs
abbrev pub member : String → List String → Bool
member x xs = any (λ y. str_eq y x) xs

-- len(set(xs)) == len(xs)
abbrev pub distinct : List String → Bool
distinct [] = true
distinct (x ∷ xs) = not (member x xs) && distinct xs

abbrev pub ids : List Node → List String
ids nodes = map (λ n. n.id) nodes

abbrev pub same_label : Option String → Option String → Bool
same_label none none = true
same_label (some a) (some b) = str_eq a b
same_label _ _ = false

abbrev pub same_edge : Edge → Edge → Bool
same_edge d e = str_eq d.source e.source && str_eq d.target e.target && same_label d.label e.label

abbrev pub edges_distinct : List Edge → Bool
edges_distinct [] = true
edges_distinct (e ∷ es) = not (any (same_edge e) es) && edges_distinct es

abbrev pub outgoing : List Edge → String → List Edge
outgoing es key = select (λ e. str_eq e.source key) es

abbrev pub incoming : List Edge → String → List Edge
incoming es key = select (λ e. str_eq e.target key) es

-- The identity checks before the first loop.
unfoldable pub identities : WorkflowGraph → Bool
identities g =
    distinct (ids g.nodes)
    && member g.entry_node (ids g.nodes)
    && all (λ e. member e.source (ids g.nodes) && member e.target (ids g.nodes)) g.edges
    && edges_distinct g.edges
    && length (incoming g.edges g.entry_node) == 0

abbrev pub push_all : List Edge → List String → List String
push_all [] queue = queue
push_all (e ∷ es) queue = push_all es (e.target ∷ queue)

-- The depth-first search from the entry; the queue's last element stands first, and `none` is out of
-- fuel.
unfoldable pub reach : ℕ → List Edge → List String → List String → Option (List String)
reach fuel es [] reached = some reached
reach zero es (key ∷ queue) reached = none
reach (suc fuel) es (key ∷ queue) reached =
    let again = reach fuel es queue reached in
    let further = reach fuel es (push_all (outgoing es key) queue) (key ∷ reached) in
    if member key reached then again else further

abbrev pub is_whole : List String → Option (List String) → Bool
is_whole names none = false
is_whole names (some reached) =
    all (λ x. member x reached) names && all (λ x. member x names) reached

-- `reached != nodes.keys()` is refused. Each edge is pushed at most once.
unfoldable pub all_reached : WorkflowGraph → Bool
unfolding reach
all_reached g = is_whole (ids g.nodes) (reach (suc (length g.edges)) g.edges (g.entry_node ∷ []) [])

-- frozenset of (condition, label of its route)
abbrev pub Signature : Type 0
Signature = List (String × Option String)

abbrev pub same_choice : String × Option String → String × Option String → Bool
same_choice a b = str_eq a.0 b.0 && same_label a.1 b.1

abbrev pub with_choice : String × Option String → Signature → Signature
with_choice choice signature =
    if any (same_choice choice) signature then signature else choice ∷ signature

-- Degrees count down to 0 and stay there; in Python they could go on below 0, and neither is 0 again.
pub record Sorting : Type 0 where
  pub ready : List String
  pub done : List String  -- `order`, its last node first
  pub degrees : String → ℕ
  pub ancestors : String → String → Bool
  pub signatures : String → List Signature

abbrev pub set_at {ℓ} : {A : Type ℓ} → String → A → (String → A) → String → A
set_at key a f k = if str_eq key k then a else f k

abbrev pub spent : ℕ → ℕ
spent zero = 0
spent (suc n) = n

abbrev pub joined : Config → (String → List Signature) → String → List Signature
joined (join_config fork) signatures key = signatures fork
joined _ signatures key = signatures key

abbrev pub find_config : String → List Node → Config
find_config key [] = other_config
find_config key (n ∷ ns) = if str_eq n.id key then n.config else find_config key ns

-- {(key, edge.label)} if nodes[key].type == "condition" else set()
abbrev pub extended : Config → String → Option String → Signature → Signature
extended (condition_config cases fallback) key label signature = with_choice (key, label) signature
extended _ key label signature = signature

-- One edge out of `key`.
unfoldable pub relax : Config → String → Edge → Sorting → Sorting
relax config key e s = record s {
  ancestors =
      set_at e.target (λ a. s.ancestors e.target a || s.ancestors key a || str_eq key a)
        s.ancestors;
  signatures =
      set_at e.target
        (s.signatures e.target ++ map (extended config key e.label) (s.signatures key))
        s.signatures;
  degrees = set_at e.target (spent (s.degrees e.target)) s.degrees;
  ready = if s.degrees e.target == 1 then s.ready ++ e.target ∷ [] else s.ready;
}

-- A ValidationError, the end of the loop, or a loop that the fuel did not finish.
pub data Outcome : Type 0 where
  too_many_routes : Outcome
  sorted : Sorting → Outcome
  unfinished : Outcome

abbrev pub too_many : Edge → Sorting → Bool
too_many e s = ltb 256 (length (s.signatures e.target))

unfoldable pub relax_all : Config → String → List Edge → Sorting → Option Sorting
unfolding relax
relax_all config key [] s = some s
relax_all config key (e ∷ es) s =
    let s' = relax config key e s in
    let rest = relax_all config key es s' in if too_many e s' then none else rest

abbrev pub taken : Config → String → List String → Sorting → Sorting
taken config key queue s = record s {
  ready = queue;
  done = key ∷ s.done;
  signatures = set_at key (joined config s.signatures key) s.signatures;
}

abbrev pub total : (String → ℕ) → List String → ℕ
total degrees [] = 0
total degrees (x ∷ xs) = degrees x + total degrees xs

module _ (g : WorkflowGraph) where
  abbrev pub take_next : (Sorting → Outcome) → Option Sorting → Outcome
  take_next again none = too_many_routes
  take_next again (some s) = again s

  -- `while ready:`
  unfoldable pub sort : ℕ → Sorting → Outcome
  unfolding relax_all
  sort zero s = elim s.ready [ [] ↦ sorted s | key ∷ queue ↦ unfinished ]
  sort (suc fuel) s = elim s.ready [
    | [] ↦ sorted s
    | key ∷ queue ↦ take_next (sort fuel) (
        relax_all (find_config key g.nodes) key (outgoing g.edges key)
          (taken (find_config key g.nodes) key queue s))
  ]

  unfoldable pub starting : Sorting
  starting = record {
    ready = g.entry_node ∷ [];
    done = [];
    degrees = λ key. length (incoming g.edges key);
    ancestors = λ key a. false;
    signatures = set_at g.entry_node ([] ∷ []) (λ key. []);
  }

  -- The order, the ancestors and the signatures, or a ValidationError of the loop.
  unfoldable pub order_of : Outcome
  unfolding sort starting
  order_of = sort (suc (total starting.degrees (ids g.nodes))) starting

  abbrev pub is_complete : Outcome → Bool
  is_complete too_many_routes = false
  is_complete (sorted s) = length s.done == length g.nodes
  is_complete unfinished = false

  -- `len(order) != len(nodes)` is refused: the graph has a cycle.
  unfoldable pub acyclic : Bool
  unfolding order_of
  acyclic = is_complete order_of
