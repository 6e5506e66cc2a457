-- ===== src/Engine/Delays.antt =====
-- `schedule_delay` of services/delay_runtime.py with the configuration of a delay node
-- (schemas/workflow_graph.py): a step waits for a durable timer. The attempt's empty output and the
-- details of the event are left out.
pub mod Waits
use agentops_workflow_platfo.Base.{
  ℕ, ◌+◌, ◌-◌, max, String, Bool, true, not, Option, some, [], ◌∷◌, ◌++◌, ltb,
}
use agentops_workflow_platfo.Base.Int.{later}
use agentops_workflow_platfo.Base.Float.{Float, FloatOps}
use agentops_workflow_platfo.Data.Json.{object, end}
use agentops_workflow_platfo.Data.Schema.{DataSchema, validate_data}
use agentops_workflow_platfo.Engine.Status.{waiting, completed}
use agentops_workflow_platfo.Engine.World.{World, find_step, step_change}
use agentops_workflow_platfo.Engine.Action.{
  Action, execution_error, gets, modify, raise_if, when, ◌>>=◌, ◌>>◌,
}
use agentops_workflow_platfo.Engine.Authority.{whole_run, event, transition}
use agentops_workflow_platfo.Engine.Endings.{write_step, move_step, move_attempt}

-- Exactly one of the two is given, as the validator `one_timer` demands.
pub data DelayConfig : Type 0 where
  seconds : Float → DelayConfig
  wake_at : ℕ → DelayConfig

unfoldable pub delay_due : FloatOps → DelayConfig → ℕ → ℕ
delay_due fl (seconds s) now = later now (fl.timedelta s)
delay_due fl (wake_at t) now = max now t

-- timedelta(days=7) in microseconds
abbrev pub week : ℕ
week = 604800000000

unfoldable pub set_step_delay : ℕ → ℕ → Action (Unit {0})
set_step_delay i due = modify λ w.
    write_step (λ s. record s { waiting_reason = some "delay"; wake_at = some due }) (find_step w i)
      w

abbrev pub delay_event : ℕ → World → World
delay_event i w = record w {
  events = w.events ++ event w.run.id i (step_change (some waiting) waiting) ∷ [];
}

-- `latest` is the last moment that a datetime can be, beyond which Python raises OverflowError.
module _ (fl : FloatOps) (finite : Float → Bool) (latest : ℕ) where
  unfoldable pub schedule_delay : ℕ → ℕ → DelayConfig → DataSchema → Action (Unit {0})
  unfolding delay_due validate_data set_step_delay move_attempt move_step
  schedule_delay step attempt config output_schema = do
    now ← gets (λ w. w.now)
    raise_if (ltb latest (delay_due fl config now)) (execution_error "delay_invalid")
    raise_if (ltb week (delay_due fl config now - now)) (execution_error "delay_invalid")
    raise_if (not (validate_data finite (object end) output_schema))
        (execution_error "output_invalid")
    set_step_delay step (delay_due fl config now)
    move_attempt attempt completed
    move_step step waiting
    parallel ← gets (λ w. w.run.parallel_mode)
    when (not parallel) (transition whole_run waiting)
    modify (delay_event step)
