-- ===== src/Engine/Routing/Live.antt =====
-- `next_node` answers on every graph without cycles whose edges agree with its rows.
use mathlib.Core.Bool.{false≢true}
use agentops_workflow_platfo.Base.{
  ℕ, zero, suc, ◌<◌, ◌≤◌, ◌⊎◌, String, str_eq, eq_iff, ◌≡◌, refl, sym, subst, Bool, true, false,
  List, [], ◌∷◌, any, length, arith, Bool-cases, inl, inr, is_some,
}
use agentops_workflow_platfo.Engine.Status.{Status}
use agentops_workflow_platfo.Engine.World.{Node, WorkflowGraph}
use agentops_workflow_platfo.Engine.Action.{Action}
use agentops_workflow_platfo.Engine.Authority.{Entity, moved_step, transition, transition_forbidden}
use agentops_workflow_platfo.Engine.Records.{add_step, pinned_node}
use agentops_workflow_platfo.Engine.Routing.{
  Routes, Rows, numbered, Reading, ready_now, undecided, unreachable, reading, Pass, passed,
  Settled, remaining_nodes, settle, after_pass, settle_all, next_node,
}
use agentops_workflow_platfo.Engine.Routing.Answers.{
  Answers, Any, Answers-pure, Answers-gets, Answers-or_raise, Answers-bind, Answers-modify,
  Answers-raise_if, returned, refused,
}
use agentops_workflow_platfo.Engine.Routing.Progress.{
  has_id, IsRanked, IsSourced, PassMet, met_found, stuck, advanced, nothing-AllUndecided,
  kept-PassMet, dropped-PassMet, not_stuck,
}
use agentops_workflow_platfo.Engine.Routing.Due.{Progressed, runs, ends, reading-IsDue}
use agentops_workflow_platfo.Engine.Routing.Verdicts.{
  Taken, Agrees, numbered-IsNumbered, skip_outgoing-Agrees,
}

transition-Answers : (e : Entity) (new : Status) → Answers (transition e new) Any
unfolding transition
transition-Answers e new = record {
  at = λ w. elim (Bool-cases (transition_forbidden w e new)) [
    | inl no_way ↦ rw no_way (refused refl)
    | inr free ↦ rw free (returned tt)
  ];
}

add_step-Answers :
    (key branch : String) (iteration : ℕ) → Answers (add_step key branch iteration) Any
unfolding add_step pinned_node
add_step-Answers key branch iteration = Answers-bind _ _ (Answers-gets _ λ _. tt) λ run _.
    Answers-bind _ _ (Answers-raise_if _ _ refl) λ _ _.
      Answers-bind _ _ (Answers-raise_if _ _ refl) λ _ _.
        Answers-bind _ _
          (Answers-bind _ _ (Answers-gets _ λ _. tt)
            λ found _. Answers-or_raise {Q = Any} found _ λ _. tt)
          λ node _. Answers-bind _ _ (Answers-gets _ λ _. tt) λ step _.
            Answers-bind _ _ (Answers-gets _ λ _. tt) λ taken _.
              Answers-bind _ _ (Answers-raise_if _ _ refl)
                λ _ _. Answers-bind _ _ (Answers-modify _) λ _ _. Answers-pure step tt

Reading-cases : (r : Reading) → (r ≡ ready_now) ⊎ ((r ≡ undecided) ⊎ (r ≡ unreachable))
Reading-cases ready_now = inl refl
Reading-cases undecided = inr (inl refl)
Reading-cases unreachable = inr (inr refl)

here : (n : Node) (ns : List Node) → any (has_id n.id) (n ∷ ns) ≡ true
here n ns = ground (arith, (eq_iff n.id n.id).1 refl)

module _ (g : WorkflowGraph) where
  settle-PassMet :
      (taken : Taken) (ns : List Node) (rows : Rows) (edges : Routes)
      → Agrees (numbered 0 g.edges) taken rows edges
      → Answers
          (settle g ns rows edges)
          (PassMet g.entry_node (numbered 0 g.edges) taken ns rows edges)
  unfolding settle
  settle-PassMet taken [] rows edges d =
      Answers-pure _ (stuck (nothing-AllUndecided g.entry_node (numbered 0 g.edges) taken edges))
  settle-PassMet taken (n ∷ ns) rows edges d =
      elim (Reading-cases (reading g.entry_node (numbered 0 g.edges) edges n.id)) [
        | inl now ↦ rw (now, settle) (Answers-pure _ (met_found d now (here n ns)))
        | inr (inl later) ↦
            rw (later, settle)
              (Answers-bind _ _ (settle-PassMet taken ns rows edges d) λ p met.
                Answers-pure _
                  (kept-PassMet g.entry_node (numbered 0 g.edges) taken n ns rows edges later met))
        | inr (inr never) ↦
            rw (never, settle)
              (Answers-bind _ _ (add_step-Answers n.id "main" 0) λ step _.
                Answers-bind _ _ (transition-Answers _ _) λ _ _.
                  Answers-bind {P = Any} _ _ (Answers-gets _ λ _. tt) λ now _.
                    Answers-bind _ _
                      (settle-PassMet taken ns _ _ (
                        skip_outgoing-Agrees n.id (moved_step step Status.skipped now) _ taken rows
                          edges (numbered-IsNumbered 0 g.edges) refl d))
                      λ p met. Answers-pure _ (
                        dropped-PassMet g.entry_node (numbered 0 g.edges) taken n ns _ rows edges
                          (numbered-IsNumbered 0 g.edges) refl d met))
      ]

not_false : (b : Bool) → (b ≡ false → ⊥) → b ≡ true
not_false true h = refl
not_false false h = absurd (h refl)

remaining-covers :
    (rows : Rows) (ns : List Node) (s : String)
    → any (has_id s) ns ≡ true
    → is_some (rows s) ≡ false
    → any (has_id s) (remaining_nodes rows ns) ≡ true
remaining-covers rows [] s m h = m
remaining-covers rows (n ∷ ns) s m h = elim (Bool-cases (str_eq n.id s)) [
  | inl hit ↦
      rw (subst (λ k. is_some (rows k) ≡ false) (sym ((eq_iff n.id s).0 hit)) h)
        (ground (arith, hit))
  | inr miss ↦ ground (arith, remaining-covers rows ns s, m, h, miss)
]

remaining-inside :
    (rows : Rows) (ns : List Node) (s : String)
    → any (has_id s) (remaining_nodes rows ns) ≡ true
    → (any (has_id s) ns ≡ true) × (is_some (rows s) ≡ false)
remaining-inside rows [] s m = absurd (false≢true m)
remaining-inside rows (n ∷ ns) s m = elim (Bool-cases (is_some (rows n.id))) [
  | inl row ↦
      let (i, no_row) = remaining-inside rows ns s (rw row at m) in (ground (arith, i), no_row)
  | inr none_yet ↦ elim (Bool-cases (str_eq n.id s)) [
    | inl hit ↦ (
      ground (arith, hit),
      subst (λ k. is_some (rows k) ≡ false) ((eq_iff n.id s).0 hit) none_yet,
    )
    | inr miss ↦
        let (i, no_row) = remaining-inside rows ns s (rw miss at (rw none_yet at m)) in
        (ground (arith, i), no_row)
  ]
]

module _ (g : WorkflowGraph) (taken : Taken) (rank : String → ℕ)
    (up : IsRanked rank (numbered 0 g.edges)) (from : IsSourced (numbered 0 g.edges) g.nodes) where
  -- What the loop knows of the nodes that remain.
  record Loop (first rows : Rows) (ns : List Node) : Type 0 where
    covers :
        (s : String)
        → any (has_id s) g.nodes ≡ true
        → is_some (rows s) ≡ false
        → any (has_id s) ns ≡ true
    within :
        (s : String)
        → any (has_id s) ns ≡ true
        → (any (has_id s) g.nodes ≡ true) × (is_some (first s) ≡ false)

  all_rows :
      (first rows : Rows)
      → Loop first rows []
      → (s : String) → any (has_id s) g.nodes ≡ true
      → is_some (rows s) ≡ true
  all_rows first rows loop s m =
      not_false (is_some (rows s)) λ none_yet. false≢true (loop.covers s m none_yet)

  next-Loop :
      (first rows rows' : Rows) (ns rest : List Node)
      → Loop first rows ns
      → ((s : String)
          → is_some (rows' s) ≡ false
          → (is_some (rows s) ≡ false) × (any (has_id s) ns ≡ true → any (has_id s) rest ≡ true))
      → ((s : String) → any (has_id s) rest ≡ true → any (has_id s) ns ≡ true)
      → Loop first rows' rest
  next-Loop first rows rows' ns rest loop left within = record {
    covers = λ s m h. (left s h).1 (loop.covers s m (left s h).0);
    within = λ s m. loop.within s (within s m);
  }

  after_pass-Progressed :
      (again : List Node → Rows → Routes → Action Settled) (n : Node) (ns : List Node)
      (first rows : Rows) (edges : Routes) (p : Pass)
      → ((rest : List Node) (rows' : Rows) (edges' : Routes)
          → length rest < length (n ∷ ns)
          → Agrees (numbered 0 g.edges) taken rows' edges'
          → Loop first rows' rest
          → Answers (again rest rows' edges') (Progressed g taken first))
      → Agrees (numbered 0 g.edges) taken rows edges
      → Loop first rows (n ∷ ns)
      → PassMet g.entry_node (numbered 0 g.edges) taken (n ∷ ns) rows edges p
      → Answers (after_pass again p) (Progressed g taken first)
  after_pass-Progressed again n ns first rows edges _ more d loop (met_found d' r m) =
      Answers-pure _
        (runs d' (reading-IsDue _ _ taken _ _ _ d' r) (loop.within _ m).0 (loop.within _ m).1)
  after_pass-Progressed again n ns first rows edges _ more d loop (stuck all) = absurd (
      not_stuck g.entry_node (numbered 0 g.edges) taken rank g.nodes (n ∷ ns) rows edges up from d
        loop.covers all (suc (rank n.id)) n.id (omega arith) (here n ns))
  after_pass-Progressed again n ns first rows edges (passed [] rows' edges' true) more d loop
        (advanced d' left within less) =
      Answers-pure _
        (ends d' (all_rows first rows' (next-Loop first rows rows' (n ∷ ns) [] loop left within)))
  after_pass-Progressed again n ns first rows edges (passed (m ∷ ms) rows' edges' true) more d loop
        (advanced d' left within less) =
      more (m ∷ ms) rows' edges' less d'
        (next-Loop first rows rows' (n ∷ ns) (m ∷ ms) loop left within)

  settle_all-Progressed :
      (fuel : ℕ) (ns : List Node) (first rows : Rows) (edges : Routes)
      → length ns ≤ fuel
      → Agrees (numbered 0 g.edges) taken rows edges
      → Loop first rows ns
      → Answers (settle_all g fuel ns rows edges) (Progressed g taken first)
  unfolding settle_all
  settle_all-Progressed fuel [] first rows edges enough d loop =
      Answers-pure _ (ends d (all_rows first rows loop))
  settle_all-Progressed zero (n ∷ ns) first rows edges enough d loop =
      absurd (omega (arith, enough))
  settle_all-Progressed (suc fuel) (n ∷ ns) first rows edges enough d loop =
      Answers-bind _ _ (settle-PassMet g taken (n ∷ ns) rows edges d) λ p met.
        after_pass-Progressed (settle_all g fuel) n ns first rows edges p
          (λ rest rows' edges' less d' loop'.
            settle_all-Progressed fuel rest first rows' edges' (omega (arith, enough, less)) d'
              loop')
          d loop met

  pub next_node-Progressed :
      (rows : Rows) (edges : Routes)
      → Agrees (numbered 0 g.edges) taken rows edges
      → Answers (next_node g rows edges) (Progressed g taken rows)
  unfolding next_node
  next_node-Progressed rows edges d =
      settle_all-Progressed (length (remaining_nodes rows g.nodes)) (remaining_nodes rows g.nodes)
        rows rows edges (omega arith) d
        (record {
          covers = λ s m h. remaining-covers rows g.nodes s m h;
          within = λ s m. remaining-inside rows g.nodes s m;
        })
