-- ===== src/Engine/History.antt =====
-- What the rows of an execution can become: any sequence of committed operations, at any times, by
-- any workers and callers.
use agentops_workflow_platfo.Base.{ℕ, String, Option, Bool, refl}
use agentops_workflow_platfo.Base.Float.{Float, FloatOps}
use agentops_workflow_platfo.Permissions.{Principal}
use agentops_workflow_platfo.Engine.Status.{Status}
use agentops_workflow_platfo.Engine.World.{World, StepRun, StepAttempt, JobStatus}
use agentops_workflow_platfo.Engine.Action.{Action}
use agentops_workflow_platfo.Engine.Authority.{Entity, transition}
use agentops_workflow_platfo.Engine.Transaction.{transaction}
use agentops_workflow_platfo.Engine.Records.{add_step, add_attempt}
use agentops_workflow_platfo.Engine.Jobs.{
  Claim, finish_job, terminate_jobs, settle_local_checkpoint, fail_queued_job,
}
use agentops_workflow_platfo.Engine.Endings.{
  expire_execution, fail_execution, fail_attempt, cancel_siblings,
}
use agentops_workflow_platfo.Engine.Cancellation.{cancel_execution}
use agentops_workflow_platfo.Data.Schema.{DataSchema}
use agentops_workflow_platfo.Engine.Delays.{DelayConfig, schedule_delay}
use agentops_workflow_platfo.Engine.Delays.Waits.{schedule_delay-Inv}
use agentops_workflow_platfo.Engine.Leases.{recover_claim}
use agentops_workflow_platfo.Engine.Keeps.{Keeps}
use agentops_workflow_platfo.Engine.Invariant.{Inv}
use agentops_workflow_platfo.Engine.Invariant.Actions.{
  Inv-frame, move-Inv, expire_execution-Inv, fail_execution-Inv, fail_attempt-Inv,
  cancel_siblings-Inv,
}
use agentops_workflow_platfo.Engine.Invariant.Records.{add_step-Inv, add_attempt-Inv}
use agentops_workflow_platfo.Engine.Invariant.Operations.{
  transaction-Inv, finish_job-Inv, terminate_jobs-Inv, settle_local_checkpoint-Inv,
  fail_queued_job-Inv, cancel_execution-Inv, recover_claim-Inv,
}

-- The parts that a transaction of the engine is made of.
pub data Part (fl : FloatOps) : Action (Unit {0}) → Type 0 where
  move : (e : Entity) (new : Status) → Part fl (transition e new)
  expire : Part fl expire_execution
  fail : (code : String) (step attempt : Option ℕ) → Part fl (fail_execution code step attempt)
  retry :
      (step : StepRun) (a : StepAttempt) (code : String) (not_before : Option ℕ) (sample : Float)
      → Part fl (fail_attempt fl step a code not_before sample)
  siblings : (code : String) → Part fl (cancel_siblings code)
  finish :
      (claim : Claim) (status : JobStatus) (code : Option String) (allow_expired : Bool)
      → Part fl (finish_job claim status code allow_expired)
  terminate : (status : JobStatus) (code : String) → Part fl (terminate_jobs status code)
  settle : Part fl settle_local_checkpoint
  delay :
      (finite : Float → Bool) (latest step attempt : ℕ) (config : DelayConfig)
      (output_schema : DataSchema)
      → Part fl (schedule_delay fl finite latest step attempt config output_schema)
  fail_queued : (i : ℕ) (code : String) → Part fl (fail_queued_job i code)

-- One committed transaction, one whole operation, or the passing of time.
pub data Step (fl : FloatOps) : World → World → Type 0 where
  committed :
      {m : Action (Unit {0})} {w : World} (expected : Option ℕ)
      → Part fl m
      → Step fl w (transaction expected m w).1
  stepped :
      {w : World} (node_id branch : String) (iteration : ℕ)
      → Step fl w (add_step node_id branch iteration w).1
  attempted : {w : World} (i : ℕ) → Step fl w (add_attempt fl i w).1
  cancelled :
      {w : World} (p : Principal) (reason : Option String)
      → Step fl w (cancel_execution p reason w).1
  recovered :
      {w : World} (samples : ℕ → Float) (max_recoveries : ℕ) (claim : Claim)
      → Step fl w (recover_claim fl samples max_recoveries claim w).1
  waited : {w : World} (later : ℕ) → Step fl w (record w { now = later })

pub data Reach (fl : FloatOps) (w : World) : World → Type 0 where
  here : Reach fl w w
  next : {u v : World} → Reach fl w u → Step fl u v → Reach fl w v

Part-Inv : {fl : FloatOps} {m : Action (Unit {0})} → Part fl m → Keeps Inv m
Part-Inv (move e new) = move-Inv e new
Part-Inv expire = expire_execution-Inv
Part-Inv (fail code step attempt) = fail_execution-Inv code step attempt
Part-Inv {fl} (retry step a code not_before sample) =
    fail_attempt-Inv fl step a code not_before sample
Part-Inv (siblings code) = cancel_siblings-Inv code
Part-Inv (finish claim status code allow_expired) = finish_job-Inv claim status code allow_expired
Part-Inv (terminate status code) = terminate_jobs-Inv status code
Part-Inv {fl} (delay finite latest step attempt config output_schema) =
    schedule_delay-Inv fl finite latest step attempt config output_schema
Part-Inv settle = settle_local_checkpoint-Inv
Part-Inv (fail_queued i code) = fail_queued_job-Inv i code

Step-Inv : {fl : FloatOps} {w u : World} → Step fl w u → Inv w → Inv u
Step-Inv {w = w} (committed expected p) v = (transaction-Inv expected _ (Part-Inv p)).at _ v
Step-Inv (stepped node_id branch iteration) v = (add_step-Inv node_id branch iteration).at _ v
Step-Inv {fl} (attempted i) v = (add_attempt-Inv fl i).at _ v
Step-Inv (cancelled p reason) v = (cancel_execution-Inv p reason).at _ v
Step-Inv {fl} (recovered samples max_recoveries claim) v =
    (recover_claim-Inv fl samples max_recoveries claim).at _ v
Step-Inv (waited later) v = Inv-frame refl refl refl refl v

-- From rows of the following kind, whatever operations are committed, in whatever order, lead to rows
-- of this kind: the steps of an ended execution have ended, a completed execution has steps, all
-- completed or skipped, and a step that waits or has ended has no open attempt.
pub Reach-Inv : {fl : FloatOps} {w u : World} → Inv w → Reach fl w u → Inv u
Reach-Inv v here = v
Reach-Inv v (next r s) = Step-Inv s (Reach-Inv v r)
