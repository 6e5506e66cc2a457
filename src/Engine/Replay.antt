-- ===== src/Engine/Replay.antt =====
-- The events that services/workflow_state.py and services/execution_records.py write, read back: the last
-- event about an execution or a step names its status.
use mathlib.Core.Bool.{false≢true}
use mathlib.Core.Option.{some-injective}
use agentops_workflow_platfo.Base.{
  ℕ, ◌≡◌, refl, sym, ap, ◌∙◌, Option, none, some, List, [], ◌∷◌, ◌++◌, ◌==◌, Bool-cases,
  Option-cases, inl, inr, if◌then◌else◌, is_some,
}
use agentops_workflow_platfo.Base.Tables.{find-put}
use agentops_workflow_platfo.Engine.Status.{Status}
use agentops_workflow_platfo.Engine.World.{
  StepRun, ExecutionEvent, execution_change, step_change, World, step_key, find_step, find_attempt,
}
use agentops_workflow_platfo.Engine.Authority.{
  Entity, whole_run, of_step, of_attempt, moved_step, moved_step_in, moved_attempt_in, moved,
  transition, transition_forbidden,
}

abbrev pub run_status : ExecutionEvent → Option Status
run_status e = elim e.change [ execution_change old new ↦ some new | _ ↦ none ]

abbrev pub step_status : ℕ → ExecutionEvent → Option Status
step_status i e = elim e.change [
  | step_change old new ↦ if e.entity_id == i then some new else none
  | _ ↦ none
]

abbrev or_before : Option Status → Option Status → Option Status
or_before none before = before
or_before (some s) before = some s

-- What the last event says that says anything.
abbrev pub replay : (ExecutionEvent → Option Status) → List ExecutionEvent → Option Status
replay says [] = none
replay says (e ∷ es) = or_before (replay says es) (says e)

replay-append :
    (says : ExecutionEvent → Option Status) (es : List ExecutionEvent) (e : ExecutionEvent)
    → replay says (es ++ e ∷ []) ≡ or_before (says e) (replay says es)
replay-append says [] e = elim (Option-cases (says e)) [
  | inl z ↦ rw z refl
  | inr (s, h) ↦ rw h refl
]
replay-append says (d ∷ ds) e =
    rw (replay-append says ds e)
      (elim (Option-cases (says e)) [ inl z ↦ rw z refl | inr (s, h) ↦ rw h refl ])

-- The events of the database, replayed, give the statuses of its rows.
pub record IsReplayed (w : World) : Type 0 where
  pub run_replayed : replay run_status w.events ≡ some w.run.status
  pub step_replayed :
      (i : ℕ) (s : StepRun)
      → find_step w i ≡ some s
      → replay (step_status i) w.events ≡ some s.status

run_moved-IsReplayed :
    (w : World) (new : Status) → IsReplayed w → IsReplayed (moved w whole_run new)
unfolding moved
run_moved-IsReplayed w new h = record {
  run_replayed = replay-append run_status w.events _;
  step_replayed = λ i s f. replay-append (step_status i) w.events _ ∙ h.step_replayed i s f;
}

written :
    (t : StepRun) (j : ℕ) (before : Option StepRun) (new : Status) (now : ℕ) {s : StepRun}
    (replayed : Option Status)
    → (if t.id == j then (if is_some before then some (moved_step t new now) else none) else before)
      ≡ some s
    → (before ≡ some s → replayed ≡ some s.status)
    → or_before (if t.id == j then some new else none) replayed ≡ some s.status
written t j before new now {s = s} replayed f kept = elim (Bool-cases (t.id == j)) [
  | inr other ↦ rw other (kept (rw other at f))
  | inl hit ↦ elim (Bool-cases (is_some before)) [
    | inr gone ↦ absurd (false≢true (ap is_some (rw gone at (rw hit at f))))
    | inl there ↦ rw hit (ap (λ r. some r.status) (some-injective _ _ (rw there at (rw hit at f))))
  ]
]

step_moved-IsReplayed :
    (w : World) (new : Status) (o : Option StepRun)
    → IsReplayed w
    → IsReplayed (moved_step_in w new o)
step_moved-IsReplayed w new none h = h
step_moved-IsReplayed w new (some t) h = record {
  run_replayed = replay-append run_status w.events _ ∙ h.run_replayed;
  step_replayed = λ j s f.
      replay-append (step_status j) w.events _
      ∙ written t j (find_step w j) new w.now (replay (step_status j) w.events)
          (sym (find-put step_key j (moved_step t new w.now) w.steps) ∙ f) (h.step_replayed j s);
}

attempt_moved-IsReplayed :
    (w : World) (new : Status) (i : ℕ)
    → IsReplayed w
    → IsReplayed (moved_attempt_in w new (find_attempt w i))
attempt_moved-IsReplayed w new i h = elim (Option-cases (find_attempt w i)) [
  | inl z ↦ rw z h
  | inr (a, found) ↦ rw found (record {
    run_replayed = replay-append run_status w.events _ ∙ h.run_replayed;
    step_replayed = λ j s f. replay-append (step_status j) w.events _ ∙ h.step_replayed j s f;
  })
]

moved-IsReplayed :
    (w : World) (e : Entity) (new : Status) → IsReplayed w → IsReplayed (moved w e new)
unfolding moved
moved-IsReplayed w whole_run new h = run_moved-IsReplayed w new h
moved-IsReplayed w (of_step i seen) new h = step_moved-IsReplayed w new (find_step w i) h
moved-IsReplayed w (of_attempt i seen) new h = attempt_moved-IsReplayed w new i h

-- The authority keeps that the events, read back in the order in which they were written, give the status
-- of the execution and of every step, whatever the entity and the status asked for.
pub transition-IsReplayed :
    (e : Entity) (new : Status) (w : World) → IsReplayed w → IsReplayed (transition e new w).1
unfolding transition
transition-IsReplayed e new w h = elim (Bool-cases (transition_forbidden w e new)) [
  | inl no_way ↦ rw no_way h
  | inr free ↦ rw free (moved-IsReplayed w e new h)
]
