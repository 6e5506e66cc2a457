-- ===== src/Graph/Order/Ends.antt =====
-- The loop over a graph's order ends within its fuel.
use mathlib.Core.Bool.{false≢true}
use agentops_workflow_platfo.Base.{
  both, ℕ, zero, suc, ◌+◌, ◌≤◌, ◌<◌, String, str_eq, eq_iff, ==→eq, ◌≡◌, refl, sym, ap, subst, Bool,
  true, false, some, List, [], ◌∷◌, ◌++◌, all, length, ◌==◌, arith, Bool-cases, Option-cases, inl,
  inr, is_some,
}
use mathlib.Core.Option.{some-injective}
use agentops_workflow_platfo.Engine.World.{Edge, Config, WorkflowGraph}
use agentops_workflow_platfo.Graph.Order.{
  member, outgoing, ids, Sorting, set_at, spent, relax, relax_all, taken, find_config, Outcome,
  too_many_routes, sorted, unfinished, too_many, take_next, sort, starting, total, order_of,
}
use agentops_workflow_platfo.Graph.Order.Sound.{spent-zero, all-select, ready-cases}

-- What is left to do: the ready nodes and the edges that they wait for.
abbrev measure : List String → Sorting → ℕ
measure names s = length s.ready + total s.degrees names

spent-le : (n : ℕ) → spent n ≤ n
spent-le zero = omega arith
spent-le (suc n) = omega arith

total-le :
    (degrees : String → ℕ) (t : String) (names : List String)
    → total (set_at t (spent (degrees t)) degrees) names ≤ total degrees names
total-le degrees t [] = omega arith
total-le degrees t (x ∷ xs) = elim (Bool-cases (str_eq t x)) [
  | inl hit ↦ rw hit (
      omega (
        arith,
        total-le degrees t xs,
        subst (λ k. spent (degrees t) ≤ degrees k) ((eq_iff t x).0 hit) (spent-le (degrees t)),
      ))
  | inr miss ↦ rw miss (omega (arith, total-le degrees t xs))
]

-- The last edge into a node makes it ready, and there is one edge less to wait for.
total-lt :
    (degrees : String → ℕ) (t : String) (names : List String)
    → member t names ≡ true
    → (degrees t == 1) ≡ true
    → total (set_at t (spent (degrees t)) degrees) names < total degrees names
total-lt degrees t [] m one = absurd (false≢true m)
total-lt degrees t (x ∷ xs) m one = elim (Bool-cases (str_eq x t)) [
  | inr miss ↦
      let rest = total-lt degrees t xs (rw miss at m) one in
      let this = total-le degrees t (x ∷ []) in omega (arith, rest, this)
  | inl hit ↦
      let same = sym ((eq_iff x t).0 hit) in
      rw ((eq_iff t x).1 same) (
        omega (
          arith,
          total-le degrees t xs,
          spent-zero (degrees t) one,
          ==→eq (degrees x) 1 (subst (λ k. (degrees k == 1) ≡ true) same one),
        ))
]

length-append : (x : String) (xs : List String) → length (xs ++ x ∷ []) ≡ suc (length xs)
length-append x [] = refl
length-append x (y ∷ ys) = ap suc (length-append x ys)

module _ (names : List String) where
  relax-measure :
      (c : Config) (key : String) (e : Edge) (s : Sorting)
      → member e.target names ≡ true
      → measure names (relax c key e s) ≤ measure names s
  unfolding relax
  relax-measure c key e s m = elim (Bool-cases (s.degrees e.target == 1)) [
    | inl one ↦
        rw (one, length-append e.target s.ready)
          (omega (arith, total-lt s.degrees e.target names m one))
    | inr more ↦ rw more (omega (arith, total-le s.degrees e.target names))
  ]

  relax_all-measure :
      (ds : List Edge) (c : Config) (key : String) (s : Sorting) {s' : Sorting}
      → all (λ e. member e.target names) ds ≡ true
      → relax_all c key ds s ≡ some s'
      → measure names s' ≤ measure names s
  unfolding relax_all
  relax_all-measure [] c key s m h =
      subst (λ k. measure names k ≤ measure names s) (some-injective _ _ h) (omega arith)
  relax_all-measure (e ∷ es) c key s m h = elim (Bool-cases (too_many e (relax c key e s))) [
    | inl no_way ↦ absurd (false≢true (ap is_some (rw no_way at h)))
    | inr fine ↦ omega (
      arith,
      relax-measure c key e s (both {a = member e.target names} m).0,
      relax_all-measure es c key (relax c key e s) (both {a = member e.target names} m).1
          (rw fine at h),
    )
  ]

abbrev pub is_finished : Outcome → Bool
is_finished too_many_routes = true
is_finished (sorted s) = true
is_finished unfinished = false

module _ (g : WorkflowGraph) (known : all (λ e. member e.target (ids g.nodes)) g.edges ≡ true) where
  turn-finished :
      (again : Sorting → Outcome) (key : String) (queue : List String) (s : Sorting)
      → ((s' : Sorting)
          → measure (ids g.nodes) s' < measure (ids g.nodes) s
          → is_finished (again s') ≡ true)
      → s.ready ≡ key ∷ queue
      → is_finished (
          take_next g again (
            relax_all
              (find_config key g.nodes)
              key
              (outgoing g.edges key)
              (taken (find_config key g.nodes) key queue s)))
        ≡ true
  turn-finished again key queue s more r =
      elim (Option-cases (
        relax_all (find_config key g.nodes) key (outgoing g.edges key)
          (taken (find_config key g.nodes) key queue s))) [
            | inl none_left ↦ rw none_left refl
            | inr (s', some_left) ↦ rw some_left (
                more s' (
                  omega (
                    arith,
                    ap length r,
                    relax_all-measure (ids g.nodes) (outgoing g.edges key) (find_config key g.nodes)
                        key _
                        (all-select (λ e. member e.target (ids g.nodes)) (λ e. str_eq e.source key)
                          g.edges known)
                        some_left,
                  )))
          ]

  sort-finished :
      (fuel : ℕ) (s : Sorting) → measure (ids g.nodes) s ≤ fuel → is_finished (sort g fuel s) ≡ true
  unfolding sort
  sort-finished zero s enough = elim (ready-cases s) [
    | inl r ↦ rw (r, sort) refl
    | inr (key, queue, r) ↦ absurd (omega (arith, enough, ap length r))
  ]
  sort-finished (suc fuel) s enough = elim (ready-cases s) [
    | inl r ↦ rw (r, sort) refl
    | inr (key, queue, r) ↦
        rw (r, sort)
          (turn-finished (sort g fuel) key queue s
            (λ s' less. sort-finished fuel s' (omega (arith, less, enough))) r)
  ]

  -- The loop over the order ends within its fuel, which is one more than the sum of the degrees, when the
  -- targets of the edges are nodes of the graph.
  pub order_of-finished : is_finished (order_of g) ≡ true
  unfolding order_of starting
  order_of-finished =
      sort-finished (suc (total (starting g).degrees (ids g.nodes))) (starting g) (omega arith)
