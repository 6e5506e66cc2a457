-- ===== src/Engine/Routing/Verdicts.antt =====
-- What the edges of checkpoint_json say, read off the steps: `skip_outgoing` (`next_node`) and
-- `complete_outgoing` (`complete_work`) of services/graph_interpreter.py write the edges out of one node.
use mathlib.Core.Bool.{false≢true}
use mathlib.Core.List.{Memᴰ}
use mathlib.Core.List.Memᴰ.{head, tail}
use agentops_workflow_platfo.Base.{
  ℕ, suc, ◌≤◌, String, str_eq, eq_iff, ◌≡◌, refl, sym, ap, ◌∙◌, subst, Bool, true, false, not, ◌&&◌,
  ◌||◌, Option, none, some, List, [], ◌∷◌, ◌==◌, ==_refl, ==→eq, arith, Bool-cases, inl, inr,
  if◌then◌else◌, is_some,
}
use agentops_workflow_platfo.Graph.Order.{same_label}
use agentops_workflow_platfo.Engine.Status.{completed, skipped, among}
use agentops_workflow_platfo.Engine.World.{StepRun, Edge}
use agentops_workflow_platfo.Engine.Routing.{
  Route, Routes, Rows, put_row, put_route, numbered, is_chosen, skip_outgoing, complete_outgoing,
}

abbrev pub Edges : Type 0
Edges = List (ℕ × Edge)

-- The route that each node has completed with.
abbrev pub Taken : Type 0
Taken = String → Option String

abbrev pub put_taken : String → Option String → Taken → Taken
put_taken key route taken k = if str_eq key k then route else taken k

-- The step leads along the edge: it has completed, and the edge has the label of the route where the
-- step is a condition.
abbrev pub takes : StepRun → Option String → Edge → Bool
takes s route e =
    among s.status (completed ∷ [])
    && (not (str_eq s.step_type "condition") || same_label e.label route)

abbrev pub verdict : Option StepRun → Option String → Edge → Option Route
verdict none route e = none
verdict (some s) route e = some (if takes s route e then Route.selected else Route.skipped)

-- Each edge is unsettled while the node that it leaves has no row, selected when the step there leads
-- along it, and skipped when it does not.
abbrev pub Agrees : Edges → Taken → Rows → Routes → Type 0
Agrees es taken rows edges =
    (p : ℕ × Edge) → Memᴰ p es → edges p.0 ≡ verdict (rows p.1.source) (taken p.1.source) p.1

verdict-is_some :
    (o : Option StepRun) (route : Option String) (e : Edge)
    → is_some (verdict o route e) ≡ is_some o
verdict-is_some none route e = refl
verdict-is_some (some s) route e = refl

-- The settled edges are those out of the nodes with rows.
pub Agrees-is_some :
    (es : Edges) (taken : Taken) (rows : Rows) (edges : Routes)
    → Agrees es taken rows edges
    → (p : ℕ × Edge) → Memᴰ p es
    → is_some (edges p.0) ≡ is_some (rows p.1.source)
Agrees-is_some es taken rows edges a p m =
    ap (λ o. is_some o) (a p m) ∙ verdict-is_some (rows p.1.source) (taken p.1.source) p.1

abbrev pub IsNumbered : Edges → Type 0
IsNumbered es = (p q : ℕ × Edge) → Memᴰ p es → Memᴰ q es → q.0 ≡ p.0 → q ≡ p

numbered-le : (i : ℕ) (es : List Edge) (p : ℕ × Edge) → Memᴰ p (numbered i es) → i ≤ p.0
numbered-le i [] p m = elim m [ ]
numbered-le i (e ∷ es) p (head here) = subst (λ q. i ≤ q.0) (sym here) (omega arith)
numbered-le i (e ∷ es) p (tail m) = omega (arith, numbered-le (suc i) es p m)

pub numbered-IsNumbered : (i : ℕ) (es : List Edge) → IsNumbered (numbered i es)
numbered-IsNumbered i [] p q m k same = elim m [ ]
numbered-IsNumbered i (e ∷ es) p q (head a) (head b) same = b ∙ sym a
numbered-IsNumbered i (e ∷ es) p q (head a) (tail k) same =
    absurd (omega (arith, numbered-le (suc i) es q k, ap (λ r. r.0) a, same))
numbered-IsNumbered i (e ∷ es) p q (tail m) (head b) same =
    absurd (omega (arith, numbered-le (suc i) es p m, ap (λ r. r.0) b, same))
numbered-IsNumbered i (e ∷ es) p q (tail m) (tail k) same =
    numbered-IsNumbered (suc i) es p q m k same

pub str_eq_sym : (a b : String) → str_eq a b ≡ true → str_eq b a ≡ true
str_eq_sym a b h = (eq_iff b a).1 (sym ((eq_iff a b).0 h))

-- There is a row, and its step leads along the edge.
abbrev pub IsTaken : Option StepRun → Option String → Edge → Type 0
IsTaken none route e = ⊥
IsTaken (some s) route e = takes s route e ≡ true

chosen :
    (b : Bool) → is_chosen (some (if b then Route.selected else Route.skipped)) ≡ true → b ≡ true
chosen true h = refl
chosen false h = h

verdict-IsTaken :
    (o : Option StepRun) (route : Option String) (e : Edge)
    → is_chosen (verdict o route e) ≡ true
    → IsTaken o route e
verdict-IsTaken none route e h = absurd (false≢true h)
verdict-IsTaken (some s) route e h = chosen (takes s route e) h

pub Agrees-IsTaken :
    (es : Edges) (taken : Taken) (rows : Rows) (edges : Routes)
    → Agrees es taken rows edges
    → (p : ℕ × Edge) → Memᴰ p es
    → is_chosen (edges p.0) ≡ true
    → IsTaken (rows p.1.source) (taken p.1.source) p.1
Agrees-IsTaken es taken rows edges a p m h =
    verdict-IsTaken (rows p.1.source) (taken p.1.source) p.1
      (subst (λ o. is_chosen o ≡ true) (a p m) h)

-- A loop over the edges that gives those out of one node a value.
abbrev write : (ℕ × Edge → Route) → String → Edges → Routes → Routes
write v key [] edges = edges
write v key (p ∷ ps) edges =
    write v key ps (if str_eq p.1.source key then put_route p.0 (v p) edges else edges)

module _ (v : ℕ × Edge → Route) (key : String) where
  write-keeps :
      (es : Edges) (edges : Routes) (i : ℕ) (r : Option Route)
      → ((q : ℕ × Edge) → Memᴰ q es → str_eq q.1.source key ≡ true → q.0 ≡ i → some (v q) ≡ r)
      → edges i ≡ r
      → write v key es edges i ≡ r
  write-keeps [] edges i r same h = h
  write-keeps (q ∷ qs) edges i r same h =
      write-keeps qs _ i r (λ p m. same p (tail m))
        (elim (Bool-cases (str_eq q.1.source key)) [
          | inr other ↦ rw other h
          | inl here ↦ elim (Bool-cases (q.0 == i)) [
            | inl hit ↦ rw (here, hit) (same q (head refl) here (==→eq _ _ hit))
            | inr miss ↦ rw (here, miss) h
          ]
        ])

  write-hits :
      (es : Edges) (edges : Routes) (p : ℕ × Edge)
      → IsNumbered es
      → Memᴰ p es
      → str_eq p.1.source key ≡ true
      → write v key es edges p.0 ≡ some (v p)
  write-hits [] edges p one m s = elim m [ ]
  write-hits (q ∷ qs) edges p one (head here) s =
      write-keeps qs _ p.0 (some (v p))
        (λ r m t e. ap (λ x. some (v x)) (one p r (head here) (tail m) e))
        (subst
          (λ x.
            (if str_eq x.1.source key then put_route x.0 (v x) edges else edges) p.0 ≡ some (v p))
          here (rw s (rw (==_refl p.0) refl)))
  write-hits (q ∷ qs) edges p one (tail m) s =
      write-hits qs _ p (λ a b j k. one a b (tail j) (tail k)) m s

  -- Where the value is the verdict on the step, the edges agree with the rows that have the step.
  write-Agrees :
      (es : Edges) (step : StepRun) (route : Option String) (taken : Taken) (rows : Rows)
      (edges : Routes)
      → IsNumbered es
      → ((p : ℕ × Edge) → some (v p) ≡ verdict (some step) route p.1)
      → Agrees es taken rows edges
      → Agrees es (put_taken key route taken) (put_row key step rows) (write v key es edges)
  write-Agrees es step route taken rows edges one value a p m =
      elim (Bool-cases (str_eq key p.1.source)) [
        | inl here ↦
            rw here (write-hits es edges p one m (str_eq_sym key p.1.source here) ∙ value p)
        | inr other ↦ rw other (
            write-keeps es edges p.0 _
              (λ q k s e. absurd (
                ground (
                  arith,
                  str_eq_sym q.1.source key s,
                  other,
                  ap (λ x. str_eq key x.1.source) (one p q m k e),
                )))
              (a p m))
      ]

skip_outgoing-write :
    (key : String) (es : Edges) (edges : Routes)
    → skip_outgoing key es edges ≡ write (λ p. Route.skipped) key es edges
unfolding skip_outgoing
skip_outgoing-write key [] edges = refl
skip_outgoing-write key (p ∷ ps) edges = skip_outgoing-write key ps _

abbrev settled : StepRun → Option String → ℕ × Edge → Route
settled step route p =
    if not (str_eq step.step_type "condition") || same_label p.1.label route
    then Route.selected
    else Route.skipped

complete_outgoing-write :
    (step : StepRun) (route : Option String) (es : Edges) (edges : Routes)
    → complete_outgoing step route es edges ≡ write (settled step route) step.node_id es edges
unfolding complete_outgoing
complete_outgoing-write step route [] edges = refl
complete_outgoing-write step route (p ∷ ps) edges = complete_outgoing-write step route ps _

pub skip_outgoing-Agrees :
    (key : String) (step : StepRun) (es : Edges) (taken : Taken) (rows : Rows) (edges : Routes)
    → IsNumbered es
    → step.status ≡ skipped
    → Agrees es taken rows edges
    → Agrees es taken (put_row key step rows) (skip_outgoing key es edges)
skip_outgoing-Agrees key step es taken rows edges one left a p m =
    ap (λ f. f p.0) (skip_outgoing-write key es edges)
    ∙ write-Agrees (λ p. Route.skipped) key es step (taken key) taken rows edges one
        (λ p. rw left refl) a p m
    ∙ same_taken
  where
    same_taken :
        verdict (put_row key step rows p.1.source) (put_taken key (taken key) taken p.1.source) p.1
        ≡ verdict (put_row key step rows p.1.source) (taken p.1.source) p.1
    same_taken = elim (Bool-cases (str_eq key p.1.source)) [
      | inl here ↦ rw (here, (eq_iff key p.1.source).0 here) refl
      | inr other ↦ rw other refl
    ]

-- Where the edges agree with the rows, a step that completes with a route has its edges settled so that
-- they agree with the rows again: the edges out of a condition are selected when they have the label of
-- the route, and those out of any other node are selected all. The edges out of the other nodes are as they
-- were.
pub complete_outgoing-Agrees :
    (step : StepRun) (route : Option String) (list : List Edge) (taken : Taken) (rows : Rows)
    (edges : Routes)
    → step.status ≡ completed
    → Agrees (numbered 0 list) taken rows edges
    → Agrees
        (numbered 0 list)
        (put_taken step.node_id route taken)
        (put_row step.node_id step rows)
        (complete_outgoing step route (numbered 0 list) edges)
complete_outgoing-Agrees step route list taken rows edges done a p m =
    ap (λ f. f p.0) (complete_outgoing-write step route (numbered 0 list) edges)
    ∙ write-Agrees (settled step route) step.node_id (numbered 0 list) step route taken rows edges
        (numbered-IsNumbered 0 list) (λ p. rw done refl) a p m
