-- ===== src/Examples/Events.antt =====
-- The theorem on replayed events, for a step that completes.
use mathlib.Core.Bool.{false≢true}
use mathlib.Core.Option.{some-injective}
use agentops_workflow_platfo.Base.{
  ℕ, ◌≡◌, refl, ap, some, [], ◌∷◌, ◌==◌, Bool-cases, inl, inr, is_some,
}
use agentops_workflow_platfo.Base.Tables.{find}
use agentops_workflow_platfo.Engine.Status.{pending, running, completed}
use agentops_workflow_platfo.Engine.World.{StepRun, World, find_step, execution_change, step_change}
use agentops_workflow_platfo.Engine.Authority.{event, the_step, transition}
use agentops_workflow_platfo.Engine.Replay.{IsReplayed, replay, step_status, transition-IsReplayed}
use agentops_workflow_platfo.Examples.Rows.{step, world}

abbrev logged : World
logged = record world {
  events =
      event 1 1 (execution_change (some pending) running)
      ∷ event 1 2 (step_change (some pending) running)
      ∷ [];
}

the_only_step :
    (i : ℕ) (s : StepRun)
    → find_step logged i ≡ some s
    → replay (step_status i) logged.events ≡ some s.status
unfolding find
the_only_step i s h = elim (Bool-cases (2 == i)) [
  | inl hit ↦ rw hit (ap (λ r. some r.status) (some-injective _ _ (rw hit at h)))
  | inr miss ↦ absurd (false≢true (ap is_some (rw miss at h)))
]

transition-IsReplayed_example : IsReplayed (transition (the_step step) completed logged).1
transition-IsReplayed_example =
    transition-IsReplayed (the_step step) completed logged
      (record { run_replayed = refl; step_replayed = the_only_step })
