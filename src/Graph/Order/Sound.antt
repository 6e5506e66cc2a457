-- ===== src/Graph/Order/Sound.antt =====
-- The loop over a graph's order: what it has done, it has done in the order of the edges.
use mathlib.Core.Bool.{false≢true}
use mathlib.Core.Option.{some-injective}
use mathlib.Core.List.{Memᴰ}
use agentops_workflow_platfo.Base.{
  both, ℕ, zero, suc, ◌+◌, ◌≤◌, String, str_eq, eq_iff, ◌≡◌, refl, sym, ap, subst, Bool, true,
  false, ◌&&◌, ◌⊎◌, some, List, [], ◌∷◌, ◌++◌, all, length, select, ◌==◌, arith, Bool-cases,
  Option-cases, inl, inr, if◌then◌else◌, is_some,
}
use agentops_workflow_platfo.Engine.World.{Edge, Config, WorkflowGraph}
use agentops_workflow_platfo.Graph.Order.{
  occurs, member, outgoing, incoming, ids, Sorting, spent, relax, relax_all, taken, find_config,
  Outcome, too_many_routes, sorted, unfinished, too_many, take_next, sort, starting,
}
use agentops_workflow_platfo.Graph.Order.Counts.{
  waiting, into, occurs-append, not_member, occurs_self, waiting-none, waiting-incoming,
  waiting-take,
}

-- Every edge into a node of the list starts at a later one: the list is the order, reversed.
abbrev pub Ordered : List Edge → List String → Type 0
Ordered es [] = Unit {0}
Ordered es (k ∷ rest) =
    ((e : Edge) → Memᴰ e es → str_eq e.target k ≡ true → member e.source rest ≡ true)
    × Ordered es rest

-- Between two edges of the node just taken, of which `ds` are still to relax.
pub record Mid (names : List String) (es ds : List Edge) (s : Sorting) : Type 0 where
  pub once : (x : String) → occurs x s.ready + occurs x s.done ≤ 1
  pub settled : (x : String) → 1 ≤ occurs x s.ready + occurs x s.done → s.degrees x ≡ 0
  pub counted : (x : String) → waiting x s.done es + into x ds ≤ s.degrees x
  pub ordered : Ordered es s.done
  pub inside : (x : String) → 1 ≤ occurs x s.ready + occurs x s.done → member x names ≡ true
  pub targets : all (λ e. member e.target names) ds ≡ true

-- At the head of the loop.
abbrev pub Between : List String → List Edge → Sorting → Type 0
Between names es s = Mid names es [] s

pushed-occurs :
    (x t : String) (test : Bool) (ready : List String)
    → occurs x (if test then ready ++ t ∷ [] else ready)
      ≡ occurs x ready + (if test && str_eq t x then 1 else 0)
pushed-occurs x t false ready = omega arith
pushed-occurs x t true ready = rw (occurs-append x t ready) (omega arith)

less_by_one : (n w i : ℕ) → w + (1 + i) ≤ n → w + i ≤ spent n
less_by_one zero w i h = omega (arith, h)
less_by_one (suc n) w i h = omega (arith, h)

pub spent-zero : (n : ℕ) → (n == 1) ≡ true → spent n ≡ 0
spent-zero zero h = refl
spent-zero (suc n) h = ground (arith, h)

module _ (names : List String) (es ds : List Edge) (c : Config) (key : String) (e : Edge)
    (s : Sorting) (mid : Mid names es (e ∷ ds) s) where
  relax-once : (x : String) → occurs x (relax c key e s).ready + occurs x (relax c key e s).done ≤ 1
  unfolding relax
  relax-once x =
      rw (pushed-occurs x e.target (s.degrees e.target == 1) s.ready)
        (elim (Bool-cases (str_eq e.target x)) [
          | inr other ↦ ground (arith, other, mid.once x)
          | inl hit ↦ rw ((eq_iff e.target x).0 hit) (ground (arith, mid.once x, mid.settled x))
        ])

  relax-settled :
      (x : String)
      → 1 ≤ occurs x (relax c key e s).ready + occurs x (relax c key e s).done
      → (relax c key e s).degrees x ≡ 0
  unfolding relax
  relax-settled x h =
      let known = rw (pushed-occurs x e.target (s.degrees e.target == 1) s.ready) at h in
      elim (Bool-cases (str_eq e.target x)) [
        | inr other ↦ rw other (mid.settled x (ground (arith, other, known)))
        | inl hit ↦ rw hit (elim (Bool-cases (s.degrees e.target == 1)) [
          | inl one ↦ spent-zero (s.degrees e.target) one
          | inr more ↦ ap spent (
              subst (λ k. s.degrees k ≡ 0) (sym ((eq_iff e.target x).0 hit))
                (mid.settled x (ground (arith, more, known))))
        ])
      ]

  relax-counted :
      (x : String) → waiting x (relax c key e s).done es + into x ds ≤ (relax c key e s).degrees x
  unfolding relax
  relax-counted x = elim (Bool-cases (str_eq e.target x)) [
    | inr other ↦ rw other (ground (arith, other, mid.counted x))
    | inl hit ↦ rw hit (
        less_by_one (s.degrees e.target) (waiting x s.done es) (into x ds) (
          subst (λ k. waiting x s.done es + (1 + into x ds) ≤ s.degrees k)
            (sym ((eq_iff e.target x).0 hit)) (ground (arith, hit, mid.counted x))))
  ]

  relax-inside :
      (x : String)
      → 1 ≤ occurs x (relax c key e s).ready + occurs x (relax c key e s).done
      → member x names ≡ true
  unfolding relax
  relax-inside x h =
      let known = rw (pushed-occurs x e.target (s.degrees e.target == 1) s.ready) at h in
      elim (Bool-cases (str_eq e.target x)) [
        | inr other ↦ mid.inside x (ground (arith, other, known))
        | inl hit ↦
            subst (λ k. member k names ≡ true) ((eq_iff e.target x).0 hit)
              (both {a = member e.target names} mid.targets).0
      ]

  relax-Mid : Mid names es ds (relax c key e s)
  unfolding relax
  relax-Mid = record {
    once = relax-once;
    settled = relax-settled;
    counted = relax-counted;
    ordered = mid.ordered;
    inside = relax-inside;
    targets = (both {a = member e.target names} mid.targets).1;
  }

relax_all-Between :
    (names : List String) (es ds : List Edge) (c : Config) (key : String) (s : Sorting)
    {s' : Sorting}
    → Mid names es ds s
    → relax_all c key ds s ≡ some s'
    → Between names es s'
unfolding relax_all
relax_all-Between names es [] c key s mid h = subst (Mid names es []) (some-injective _ _ h) mid
relax_all-Between names es (e ∷ ds) c key s mid h =
    elim (Bool-cases (too_many e (relax c key e s))) [
      | inl no_way ↦ absurd (false≢true (ap is_some (rw no_way at h)))
      | inr fine ↦
          relax_all-Between names es ds c key (relax c key e s)
            (relax-Mid names es ds c key e s mid) (rw fine at h)
    ]

pub all-select : (p q : Edge → Bool) (es : List Edge) → all p es ≡ true → all p (select q es) ≡ true
all-select p q [] h = refl
all-select p q (e ∷ es) h =
    let rest = all-select p q es (both {a = p e} h).1 in ground (arith, rest, (both {a = p e} h).0)

-- Taking the first node that is ready.
taken-Mid :
    (names : List String) (es : List Edge) (c : Config) (key : String) (queue : List String)
    (s : Sorting)
    → s.ready ≡ key ∷ queue
    → all (λ e. member e.target names) es ≡ true
    → Between names es s
    → Mid names es (outgoing es key) (taken c key queue s)
taken-Mid names es c key queue s r targets mid =
    let here = rw r at (mid.once key) in
    let undone = not_member key s.done (omega (arith, occurs_self key queue, here)) in
    record {
      once = λ x. ground (arith, rw r at (mid.once x));
      settled = λ x h. mid.settled x (rw r (ground (arith, h)));
      counted = λ x. rw (waiting-take x key s.done es undone) (omega (arith, mid.counted x));
      ordered = (
        λ e m t.
            waiting-none key s.done es e
              (omega (
                arith,
                mid.counted key,
                mid.settled key (rw r (omega (arith, occurs_self key queue))),
              ))
              m t,
        mid.ordered,
      );
      inside = λ x h. mid.inside x (rw r (ground (arith, h)));
      targets = all-select (λ e. member e.target names) (λ e. str_eq e.source key) es targets;
    }

-- What the loop has ended with.
pub data Done (names : List String) (es : List Edge) : Outcome → Type 0 where
  refused : Done names es too_many_routes
  finished : {s : Sorting} → Between names es s → Done names es (sorted s)
  out_of_fuel : Done names es unfinished

list-cases :
    (xs : List String) → (xs ≡ []) ⊎ ((key : String) × (queue : List String) × (xs ≡ key ∷ queue))
list-cases [] = inl refl
list-cases (x ∷ xs) = inr (x, xs, refl)

pub ready-cases :
    (s : Sorting)
    → (s.ready ≡ []) ⊎ ((key : String) × (queue : List String) × (s.ready ≡ key ∷ queue))
ready-cases s = list-cases s.ready

module _ (g : WorkflowGraph) (known : all (λ e. member e.target (ids g.nodes)) g.edges ≡ true) where
  -- One turn of the loop.
  turn-Done :
      (again : Sorting → Outcome) (key : String) (queue : List String) (s : Sorting)
      → ((s' : Sorting) → Between (ids g.nodes) g.edges s' → Done (ids g.nodes) g.edges (again s'))
      → s.ready ≡ key ∷ queue
      → Between (ids g.nodes) g.edges s
      → Done (ids g.nodes) g.edges (
          take_next g again (
            relax_all
              (find_config key g.nodes)
              key
              (outgoing g.edges key)
              (taken (find_config key g.nodes) key queue s)))
  turn-Done again key queue s more r mid =
      elim (Option-cases (
        relax_all (find_config key g.nodes) key (outgoing g.edges key)
          (taken (find_config key g.nodes) key queue s))) [
            | inl none_left ↦ rw none_left refused
            | inr (s', some_left) ↦ rw some_left (
                more s' (
                  relax_all-Between (ids g.nodes) g.edges (outgoing g.edges key)
                    (find_config key g.nodes) key _
                    (taken-Mid (ids g.nodes) g.edges (find_config key g.nodes) key queue s r known
                      mid)
                    some_left))
          ]

  pub sort-Done :
      (fuel : ℕ) (s : Sorting)
      → Between (ids g.nodes) g.edges s
      → Done (ids g.nodes) g.edges (sort g fuel s)
  unfolding sort
  sort-Done zero s mid = elim (ready-cases s) [
    | inl r ↦ rw (r, sort) (finished mid)
    | inr (key, queue, r) ↦ rw (r, sort) out_of_fuel
  ]
  sort-Done (suc fuel) s mid = elim (ready-cases s) [
    | inl r ↦ rw (r, sort) (finished mid)
    | inr (key, queue, r) ↦
        rw (r, sort) (turn-Done (sort g fuel) key queue s (λ s' m. sort-Done fuel s' m) r mid)
  ]

  pub starting-Between :
      member g.entry_node (ids g.nodes) ≡ true
      → length (incoming g.edges g.entry_node) ≡ 0
      → Between (ids g.nodes) g.edges (starting g)
  unfolding starting
  starting-Between entry none_into = record {
    once = λ x. ground arith;
    settled = λ x h. elim (Bool-cases (str_eq g.entry_node x)) [
      | inl here ↦
          subst (λ k. length (incoming g.edges k) ≡ 0) ((eq_iff g.entry_node x).0 here) none_into
      | inr other ↦ absurd (ground (arith, other, h))
    ];
    counted = λ x. rw (waiting-incoming x g.edges) (omega arith);
    ordered = tt;
    inside = λ x h. elim (Bool-cases (str_eq g.entry_node x)) [
      | inl here ↦ subst (λ k. member k (ids g.nodes) ≡ true) ((eq_iff g.entry_node x).0 here) entry
      | inr other ↦ absurd (ground (arith, other, h))
    ];
    targets = refl;
  }
