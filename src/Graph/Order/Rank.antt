-- ===== src/Graph/Order/Rank.antt =====
-- A graph whose order is complete has no cycle.
use mathlib.Core.Bool.{false≢true}
use mathlib.Core.List.{Memᴰ}
use mathlib.Core.List.Memᴰ.{head, tail}
use agentops_workflow_platfo.Base.{
  both, ℕ, suc, ◌≤◌, ◌<◌, String, str_eq, eq_iff, ◌≡◌, refl, sym, ap, ◌∙◌, subst, Bool, true, false,
  ◌&&◌, List, [], ◌∷◌, all, length, ◌==◌, ==→eq, arith, Bool-cases, inl, inr, if◌then◌else◌,
}
use agentops_workflow_platfo.Engine.World.{Edge, Node, WorkflowGraph}
use agentops_workflow_platfo.Graph.Order.{
  occurs, member, incoming, ids, Sorting, Outcome, sorted, identities, starting, total, order_of,
  is_complete, acyclic, distinct, edges_distinct,
}
use agentops_workflow_platfo.Graph.Order.Counts.{member-occurs}
use agentops_workflow_platfo.Graph.Order.Sound.{
  Ordered, Between, Done, refused, finished, out_of_fuel, sort-Done, starting-Between,
}

-- How early a node stands in an order that is kept with its last node first.
abbrev pub position : List String → String → ℕ
position [] x = 0
position (k ∷ rest) x = if str_eq k x then suc (length rest) else position rest x

position-le : (xs : List String) (x : String) → position xs x ≤ length xs
position-le [] x = omega arith
position-le (k ∷ rest) x = ground (arith, position-le rest x)

-- What stands again later is another name.
apart :
    (y x : String) (xs : List String)
    → occurs x (y ∷ xs) ≤ 1
    → member x xs ≡ true
    → str_eq y x ≡ false
apart y x xs once m = elim (Bool-cases (str_eq y x)) [
  | inr other ↦ other
  | inl same ↦ absurd (omega (arith, rw same at once, member-occurs x xs m))
]

position-lt :
    (es : List Edge) (order : List String) (e : Edge)
    → ((x : String) → occurs x order ≤ 1)
    → Ordered es order
    → Memᴰ e es
    → member e.target order ≡ true
    → (position order e.source < position order e.target) × (member e.source order ≡ true)
position-lt es [] e once o m t = absurd (false≢true t)
position-lt es (k ∷ rest) e once (into_k, o) m t = elim (Bool-cases (str_eq k e.target)) [
  | inl hit ↦
      let s = into_k e m ((eq_iff e.target k).1 (sym ((eq_iff k e.target).0 hit))) in
      (
        rw (hit, apart k e.source rest (once e.source) s)
            (omega (arith, position-le rest e.source)),
        ground (arith, s),
      )
  | inr miss ↦
      let (less, s) = position-lt es rest e (λ x. omega (arith, once x)) o m (rw miss at t) in
      (rw (miss, apart k e.source rest (once e.source) s) less, ground (arith, s))
]

-- xs without the first x
abbrev removed : String → List String → List String
removed x [] = []
removed x (y ∷ ys) = let rest = y ∷ removed x ys in if str_eq y x then ys else rest

removed-length :
    (x : String) (xs : List String) → member x xs ≡ true → suc (length (removed x xs)) ≡ length xs
removed-length x [] m = absurd (false≢true m)
removed-length x (y ∷ ys) m = ground (arith, removed-length x ys, m)

removed-member :
    (x z : String) (xs : List String)
    → member z xs ≡ true
    → str_eq x z ≡ false
    → member z (removed x xs) ≡ true
removed-member x z [] m n = m
removed-member x z (y ∷ ys) m n = elim (Bool-cases (str_eq y x)) [
  | inr other ↦ rw other (ground (arith, removed-member x z ys, m, n))
  | inl hit ↦
      rw hit (ground (arith, m, subst (λ k. str_eq k z ≡ false) (sym ((eq_iff y x).0 hit)) n))
]

-- Distinct names among others are not more than these.
fits_in :
    (xs ys : List String)
    → ((x : String) → occurs x xs ≤ 1)
    → ((x : String) → member x xs ≡ true → member x ys ≡ true)
    → length xs ≤ length ys
fits_in [] ys once sub = omega arith
fits_in (x ∷ xs) ys once sub = omega (
  arith,
  removed-length x ys (sub x (ground (arith, (eq_iff x x).1 refl))),
  fits_in xs (removed x ys) (λ z. omega (arith, once z))
      λ z m. removed-member x z ys (sub z (ground (arith, m))) (apart x z xs (once z) m),
)

-- As many distinct names as there are names are all of them.
all_there :
    (xs ys : List String)
    → ((x : String) → occurs x xs ≤ 1)
    → ((x : String) → member x xs ≡ true → member x ys ≡ true)
    → length xs ≡ length ys
    → (y : String) → member y ys ≡ true
    → member y xs ≡ true
all_there xs ys once sub same y m = elim (Bool-cases (member y xs)) [
  | inl t ↦ t
  | inr missing ↦ absurd (
      omega (
        arith,
        same,
        removed-length y ys m,
        fits_in xs (removed y ys) once λ z t. removed-member y z ys (sub z t) (differs z t missing),
      ))
]
  where
    differs : (z : String) → member z xs ≡ true → member y xs ≡ false → str_eq y z ≡ false
    differs z t missing = elim (Bool-cases (str_eq y z)) [
      | inr other ↦ other
      | inl hit ↦
          absurd (
            false≢true (sym missing ∙ subst (λ k. member k xs ≡ true) (sym ((eq_iff y z).0 hit)) t))
    ]

pub all-Mem :
    {A : Type 0} (f : A → Bool) (xs : List A) (x : A) → all f xs ≡ true → Memᴰ x xs → f x ≡ true
all-Mem f [] x h m = elim m [ ]
all-Mem f (y ∷ ys) x h (head here) = rw here (both h).0
all-Mem f (y ∷ ys) x h (tail m) = all-Mem f ys x (both {a = f y} h).1 m

all-right :
    {A : Type 0} (f g : A → Bool) (xs : List A) → all (λ x. f x && g x) xs ≡ true → all g xs ≡ true
all-right f g [] h = refl
all-right f g (x ∷ xs) h =
    let (now, rest) = both {a = f x && g x} h in
    ground (arith, (both {a = f x} now).1, all-right f g xs rest)

ids-length : (nodes : List Node) → length (ids nodes) ≡ length nodes
ids-length [] = refl
ids-length (n ∷ ns) = ap suc (ids-length ns)

-- What the identity checks leave known.
pub record Identified (g : WorkflowGraph) : Type 0 where
  pub entry : member g.entry_node (ids g.nodes) ≡ true
  pub ends :
      all (λ e. member e.source (ids g.nodes) && member e.target (ids g.nodes)) g.edges ≡ true
  pub no_entry_edge : length (incoming g.edges g.entry_node) ≡ 0

pub identities-Identified : (g : WorkflowGraph) → identities g ≡ true → Identified g
unfolding identities
identities-Identified g h =
    let a = both {b = length (incoming g.edges g.entry_node) == 0} h in
    let b = both {b = edges_distinct g.edges} a.0 in
    let c =
      both {b = all (λ e. member e.source (ids g.nodes) && member e.target (ids g.nodes)) g.edges}
        b.0 in
    record {
      entry = (both {a = distinct (ids g.nodes)} c.0).1;
      ends = c.1;
      no_entry_edge = ==→eq _ 0 a.1;
    }

-- A complete order has every node.
complete-order :
    (g : WorkflowGraph) {s : Sorting}
    → Between (ids g.nodes) g.edges s
    → (length s.done == length g.nodes) ≡ true
    → (y : String) → member y (ids g.nodes) ≡ true
    → member y s.done ≡ true
complete-order g {s} m h y t =
    all_there s.done (ids g.nodes) (λ x. omega (arith, m.once x))
      (λ x d. m.inside x (omega (arith, member-occurs x s.done d)))
      (==→eq _ _ h ∙ sym (ids-length g.nodes)) y t

-- An order of the nodes in which every edge goes up.
pub record Upward (g : WorkflowGraph) : Type 0 where
  pub rank : String → ℕ
  pub up : (e : Edge) → Memᴰ e g.edges → rank e.source < rank e.target

upward :
    (g : WorkflowGraph) {o : Outcome}
    → Identified g
    → Done (ids g.nodes) g.edges o
    → is_complete g o ≡ true
    → Upward g
upward g known refused h = absurd (false≢true h)
upward g known out_of_fuel h = absurd (false≢true h)
upward g known (finished {s} m) h = record {
  rank = position s.done;
  up = λ e here.
      (position-lt g.edges s.done e (λ x. omega (arith, m.once x)) m.ordered here
        (complete e here)).0;
}
  where
    complete : (e : Edge) → Memᴰ e g.edges → member e.target s.done ≡ true
    complete e here = complete-order g m h e.target (
        all-Mem (λ d. member d.target (ids g.nodes)) g.edges e
          (all-right (λ d. member d.source (ids g.nodes)) (λ d. member d.target (ids g.nodes))
            g.edges known.ends)
          here)

-- What the loop over the order has ended with.
order_of-Done : (g : WorkflowGraph) → Identified g → Done (ids g.nodes) g.edges (order_of g)
unfolding order_of
order_of-Done g known =
    let targets =
      all-right (λ d. member d.source (ids g.nodes)) (λ d. member d.target (ids g.nodes)) g.edges
        known.ends in
    sort-Done g targets (suc (total (starting g).degrees (ids g.nodes))) (starting g)
      (starting-Between g targets known.entry known.no_entry_edge)

-- The graphs that pass have no cycle.
pub acyclic-Upward : (g : WorkflowGraph) → identities g ≡ true → acyclic g ≡ true → Upward g
unfolding acyclic
acyclic-Upward g i h =
    let known = identities-Identified g i in upward g known (order_of-Done g known) h

finished-Between :
    {names : List String} {es : List Edge} {s : Sorting}
    → Done names es (sorted s)
    → Between names es s
finished-Between (finished m) = m

-- The order of a graph that passes has every node.
pub acyclic-covers :
    (g : WorkflowGraph) (s : Sorting)
    → identities g ≡ true
    → acyclic g ≡ true
    → order_of g ≡ sorted s
    → (y : String) → member y (ids g.nodes) ≡ true
    → member y s.done ≡ true
unfolding acyclic
acyclic-covers g s i h e =
    complete-order g
      (finished-Between
        (subst (Done (ids g.nodes) g.edges) e (order_of-Done g (identities-Identified g i))))
      (rw e at h)
