-- ===== src/Examples/Executions.antt =====
-- The theorems on executions, applied to the rows of a dead worker.
use agentops_workflow_platfo.Base.{
  Bool, [], ◌∷◌, ◌+◌, ℕ, ◌≡◌, refl, false, true, not, ◌&&◌, ◌≤◌, none, some, ltb, arith,
}
use agentops_workflow_platfo.Base.Float.{Float}
use agentops_workflow_platfo.Base.Tables.{find, put}
use agentops_workflow_platfo.Engine.Status.{completed}
use agentops_workflow_platfo.Engine.World.{World, JobStatus, retryable, find_step}
use agentops_workflow_platfo.Engine.Action.{◌>>=◌, for_each, ok, err, lease_lost}
use agentops_workflow_platfo.Engine.Authority.{whole_run, transition}
use agentops_workflow_platfo.Engine.Jobs.{Claim, locked_claim, finish_job}
use agentops_workflow_platfo.Engine.Cancellation.{cancel_execution}
use agentops_workflow_platfo.Engine.Leases.{recover_claim}
use agentops_workflow_platfo.Data.Json.{object, end}
use agentops_workflow_platfo.Data.Schema.{
  DataSchema, schema, no_properties, no_items, object_type, validate_data,
}
use agentops_workflow_platfo.Engine.Delays.{DelayConfig, delay_due, week, schedule_delay}
use agentops_workflow_platfo.Engine.Delays.Waits.{WaitsUntil, schedule_delay-WaitsUntil}
use agentops_workflow_platfo.Permissions.{permits, listed}
use agentops_workflow_platfo.Engine.Invariant.{Inv, transition-Inv}
use agentops_workflow_platfo.Engine.Fencing.{IsFenced, recover_claim-IsFenced}
use agentops_workflow_platfo.Engine.Fencing.Exclusive.{finish_job-exclusive}
use agentops_workflow_platfo.Engine.Fencing.Stopped.{cancel_execution-lease_lost}
use agentops_workflow_platfo.Engine.Retry.{
  Decision, contains, retry_decision, is_retryable, retry_due, backoff_delay, past,
}
use agentops_workflow_platfo.Engine.Retry.Bounds.{
  retries, retry_decision_iff, retry_decision_capped,
}
use agentops_workflow_platfo.Engine.History.{here, next, cancelled, recovered, Reach-Inv}
use agentops_workflow_platfo.Examples.Floats.{floats}
use agentops_workflow_platfo.Examples.Rows.{policy, world, dead_claim, operator, world-Inv}

-- The jitter of every step.
abbrev samples : ℕ → Float
samples i = 0

abbrev after_recovery : World
after_recovery = (recover_claim floats samples 3 dead_claim world).1

recovery_succeeds : recover_claim floats samples 3 dead_claim world ≡ (ok true, after_recovery)
unfolding recover_claim ◌>>=◌ find for_each put transition retry_decision is_retryable contains
    retry_due backoff_delay
recovery_succeeds = refl

abbrev after_both : World
after_both = (cancel_execution operator none after_recovery).1

Reach-Inv_example : Inv after_both
Reach-Inv_example =
    Reach-Inv {fl = floats} {w = world} {u = after_both} world-Inv
      (next (next here (recovered samples 3 dead_claim)) (cancelled operator none))

transition-Inv_example : Inv (transition whole_run completed world).1
transition-Inv_example = transition-Inv whole_run completed world world-Inv

recover_claim-IsFenced_example : IsFenced dead_claim after_recovery
recover_claim-IsFenced_example =
    recover_claim-IsFenced floats samples 3 dead_claim world after_recovery recovery_succeeds

-- A claim of the same job that was taken over by another worker.
abbrev stale_claim : Claim
stale_claim = record dead_claim { token = 100 }

abbrev finished_world : World
finished_world = (finish_job dead_claim JobStatus.completed none true world).1

finish_succeeds :
    finish_job dead_claim JobStatus.completed none true world ≡ (ok tt, finished_world)
unfolding finish_job locked_claim ◌>>=◌ find put
finish_succeeds = refl

finish_job-exclusive_example :
    (finish_job stale_claim JobStatus.failed none true world ≡ (err lease_lost, world))
    × (finish_job stale_claim JobStatus.failed none true finished_world
        ≡ (err lease_lost, finished_world))
    × (finish_job dead_claim JobStatus.failed none true finished_world
        ≡ (err lease_lost, finished_world))
finish_job-exclusive_example =
    finish_job-exclusive dead_claim stale_claim JobStatus.completed JobStatus.failed none none true
      true world finished_world refl refl refl refl finish_succeeds

abbrev cancelled_world : World
cancelled_world = (cancel_execution operator none world).1

cancel_succeeds : cancel_execution operator none world ≡ (ok tt, cancelled_world)
unfolding cancel_execution ◌>>=◌ find for_each put transition permits listed
cancel_succeeds = refl

cancel_execution-lease_lost_example :
    finish_job dead_claim JobStatus.completed none true cancelled_world
    ≡ (err lease_lost, cancelled_world)
cancel_execution-lease_lost_example =
    cancel_execution-lease_lost operator none dead_claim JobStatus.completed none true world
      cancelled_world refl refl refl cancel_succeeds

abbrev every_float : Float → Bool
every_float x = true

abbrev nothing : DataSchema
nothing = schema (object_type ∷ []) no_properties [] no_items

abbrev delayed_world : World
delayed_world =
    (schedule_delay floats every_float 9000 2 3 (DelayConfig.seconds 60) nothing world).1

delay_registered :
    schedule_delay floats every_float 9000 2 3 (DelayConfig.seconds 60) nothing world
    ≡ (ok tt, delayed_world)
unfolding schedule_delay delay_due validate_data ◌>>=◌ find put transition
delay_registered = refl

schedule_delay-WaitsUntil_example :
    WaitsUntil (delay_due floats (DelayConfig.seconds 60) 1000) (find_step delayed_world 2)
    × (1000 ≤ delay_due floats (DelayConfig.seconds 60) 1000)
    × (delay_due floats (DelayConfig.seconds 60) 1000 ≤ 9000)
    × (delay_due floats (DelayConfig.seconds 60) 1000 ≤ 1000 + week)
    × (validate_data every_float (object end) nothing ≡ true)
schedule_delay-WaitsUntil_example =
    schedule_delay-WaitsUntil floats every_float 9000 2 3 (DelayConfig.seconds 60) nothing world
      delayed_world refl delay_registered

abbrev retried : Decision
retried = record { classification = retryable; due = some 1002; code = "provider_timeout" }

retry_decided :
    retry_decision floats policy 1 "provider_timeout" 1000 (some 5000) 0 false none ≡ ok retried
unfolding retry_decision is_retryable contains retry_due backoff_delay
retry_decided = refl

retry_decision_iff_example :
    retries (retry_decision floats policy 3 "provider_timeout" 1000 (some 5000) 0 false none)
    ≡ some (
        not (past (some 5000) 1000)
        && is_retryable policy "provider_timeout" false
        && ltb 3 policy.max_attempts
        && not (past (some 5000) (retry_due floats policy 3 1000 none 0)))
retry_decision_iff_example =
    retry_decision_iff floats policy 3 "provider_timeout" 1000 (some 5000) 0 false none refl

retry_decision_capped_example : 1002 ≤ 1060
retry_decision_capped_example =
    retry_decision_capped floats (λ a b h now. ground (arith, h)) policy 1 "provider_timeout" 1000
      (some 5000) 0 false none retried 1002 retry_decided refl
