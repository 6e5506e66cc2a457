-- ===== src/Engine/Routing/Progress.antt =====
-- One pass of `next_node` over the nodes of a graph without cycles whose edges agree with its rows.
use mathlib.Core.Bool.{false≢true}
use mathlib.Core.List.{Memᴰ}
use mathlib.Core.List.Memᴰ.{head, tail}
use agentops_workflow_platfo.Base.{
  ℕ, zero, suc, ◌<◌, String, str_eq, eq_iff, ◌≡◌, refl, sym, ◌∙◌, subst, Bool, true, false, not,
  ◌&&◌, List, [], ◌∷◌, any, length, arith, Bool-cases, inl, inr, if◌then◌else◌, is_some,
}
use agentops_workflow_platfo.Engine.World.{StepRun, Node, Edge}
use agentops_workflow_platfo.Engine.Status.{skipped}
use agentops_workflow_platfo.Engine.Routing.Verdicts.{
  Edges, Taken, Agrees, Agrees-is_some, IsNumbered, skip_outgoing-Agrees,
}
use agentops_workflow_platfo.Engine.Routing.{
  Routes, Rows, put_row, is_open, is_selected, ready_now, undecided, unreachable, reading,
  skip_outgoing, Pass, found, passed, kept, dropped,
}

abbrev pub has_id : String → Node → Bool
has_id s n = str_eq n.id s

-- The graph has no cycle: its edges go up in some order of the nodes.
abbrev pub IsRanked : (String → ℕ) → Edges → Type 0
IsRanked rank es = (p : ℕ × Edge) → Memᴰ p es → rank p.1.source < rank p.1.target

-- The edges start at nodes of the graph.
abbrev pub IsSourced : Edges → List Node → Type 0
IsSourced es nodes = (p : ℕ × Edge) → Memᴰ p es → any (has_id p.1.source) nodes ≡ true

pub any-Mem {ℓ} :
    {A : Type ℓ} (f : A → Bool) (xs : List A) → any f xs ≡ true → (x : A) × Memᴰ x xs × (f x ≡ true)
any-Mem f [] h = absurd (false≢true h)
any-Mem f (x ∷ xs) h = elim (Bool-cases (f x)) [
  | inl t ↦ (x, head refl, t)
  | inr n ↦ let (y, m, t) = any-Mem f xs (rw n at h) in (y, tail m, t)
]

module _ (entry : String) (es : Edges) (taken : Taken) where
  abbrev pub AllUndecided : List Node → Routes → Type 0
  AllUndecided ns edges =
      (s : String) → any (has_id s) ns ≡ true → reading entry es edges s ≡ undecided

  -- What one pass over the nodes has done.
  pub data PassMet (ns : List Node) (rows : Rows) (edges : Routes) : Pass → Type 0 where
    met_found :
        {n : Node} {rows' : Rows} {edges' : Routes}
        → Agrees es taken rows' edges'
        → reading entry es edges' n.id ≡ ready_now
        → any (has_id n.id) ns ≡ true
        → PassMet ns rows edges (found n rows' edges')
    stuck : AllUndecided ns edges → PassMet ns rows edges (passed ns rows edges false)
    advanced :
        {rest : List Node} {rows' : Rows} {edges' : Routes}
        → Agrees es taken rows' edges'
        → ((s : String)
            → is_some (rows' s) ≡ false
            → (is_some (rows s) ≡ false) × (any (has_id s) ns ≡ true → any (has_id s) rest ≡ true))
        → ((s : String) → any (has_id s) rest ≡ true → any (has_id s) ns ≡ true)
        → length rest < length ns
        → PassMet ns rows edges (passed rest rows' edges' true)

  pub nothing-AllUndecided : (edges : Routes) → AllUndecided [] edges
  nothing-AllUndecided edges s h = absurd (false≢true h)

  cons-AllUndecided :
      (n : Node) (ns : List Node) (edges : Routes)
      → reading entry es edges n.id ≡ undecided
      → AllUndecided ns edges
      → AllUndecided (n ∷ ns) edges
  cons-AllUndecided n ns edges u rest s h = elim (Bool-cases (str_eq n.id s)) [
    | inl here ↦ subst (λ k. reading entry es edges k ≡ undecided) ((eq_iff n.id s).0 here) u
    | inr other ↦ rest s (rw other at h)
  ]

  pub kept-PassMet :
      (n : Node) (ns : List Node) (rows : Rows) (edges : Routes) {p : Pass}
      → reading entry es edges n.id ≡ undecided
      → PassMet ns rows edges p
      → PassMet (n ∷ ns) rows edges (kept n p)
  kept-PassMet n ns rows edges u (met_found d r m) = met_found d r (ground (arith, m))
  kept-PassMet n ns rows edges u (stuck all) = stuck (cons-AllUndecided n ns edges u all)
  kept-PassMet n ns rows edges u (advanced d left within less) =
      advanced d (λ s h. ((left s h).0, λ k. ground (arith, (left s h).1, k)))
        (λ s k. ground (arith, within s, k)) (omega (arith, less))

  pub dropped-PassMet :
      (n : Node) (ns : List Node) (step : StepRun) (rows : Rows) (edges : Routes) {p : Pass}
      → IsNumbered es
      → step.status ≡ skipped
      → Agrees es taken rows edges
      → PassMet ns (put_row n.id step rows) (skip_outgoing n.id es edges) p
      → PassMet (n ∷ ns) rows edges (dropped p)
  dropped-PassMet n ns step rows edges one left_out d (met_found d' r m) =
      met_found d' r (ground (arith, m))
  dropped-PassMet n ns step rows edges one left_out d (stuck all) =
      advanced (skip_outgoing-Agrees n.id step es taken rows edges one left_out d)
        (λ s h. ground (arith, h)) (λ s k. ground (arith, k)) (omega arith)
  dropped-PassMet n ns step rows edges one left_out d (advanced d' left within less) =
      advanced d' (λ s h. ground (arith, (left s h).0, (left s h).1))
        (λ s k. ground (arith, within s, k)) (omega (arith, less))

  waits :
      (first held ready : Bool)
      → (if first
          then ready_now
          else if held
          then undecided
          else if ready
          then ready_now
          else unreachable)
        ≡ undecided
      → held ≡ true
  waits true held ready h = absurd (ground (arith, h))
  waits false true ready h = refl
  waits false false true h = absurd (ground (arith, h))
  waits false false false h = absurd (ground (arith, h))

  -- A node that waits has an edge that is not decided.
  open_edge :
      (edges : Routes) (s : String)
      → reading entry es edges s ≡ undecided
      → (p : ℕ × Edge) × Memᴰ p es × (str_eq p.1.target s ≡ true) × (is_some (edges p.0) ≡ false)
  unfolding reading
  open_edge edges s h =
      let (p, m, t) =
        any-Mem (λ p. str_eq p.1.target s && not (is_some (edges p.0))) es
          (waits (str_eq s entry) (is_open edges s es) (is_selected edges s es) h) in
      (p, m, ground (arith, t), ground (arith, t))

  -- Nodes that all wait would wait for ever lower nodes.
  pub not_stuck :
      (rank : String → ℕ) (nodes ns : List Node) (rows : Rows) (edges : Routes)
      → IsRanked rank es
      → IsSourced es nodes
      → Agrees es taken rows edges
      → ((s : String)
          → any (has_id s) nodes ≡ true
          → is_some (rows s) ≡ false
          → any (has_id s) ns ≡ true)
      → AllUndecided ns edges
      → (bound : ℕ) (s : String) → rank s < bound
      → any (has_id s) ns ≡ true
      → ⊥
  not_stuck rank nodes ns rows edges up from d cover all zero s less h = omega (arith, less)
  not_stuck rank nodes ns rows edges up from d cover all (suc bound) s less h =
      let (p, m, target, open_now) = open_edge edges s (all s h) in
      elim (Bool-cases (is_some (rows p.1.source))) [
        | inl row ↦
            absurd (false≢true (sym open_now ∙ (Agrees-is_some es taken rows edges d p m ∙ row)))
        | inr none_yet ↦
            not_stuck rank nodes ns rows edges up from d cover all bound p.1.source
              (omega (
                arith,
                less,
                subst (λ t. rank p.1.source < rank t) ((eq_iff p.1.target s).0 target) (up p m),
              ))
              (cover p.1.source (from p m) none_yet)
      ]
