-- ===== src/Engine/Jobs.antt =====
-- services/durable_queue.py: the rows of the queue, inside the transaction of their execution, and
-- `renew_lease` of services/worker_leases.py. (The guards that a transaction is open hold by
-- construction: these are actions.)
use agentops_workflow_platfo.Base.{
  ℕ, suc, String, str_eq, Bool, true, false, not, ◌&&◌, ◌||◌, Option, none, some, [], ◌∷◌, ◌++◌,
  map, any, select, ◌==◌, ltb, if◌then◌else◌, is_some,
}
use agentops_workflow_platfo.Base.Tables.{put}
use agentops_workflow_platfo.Base.Int.{later}
use agentops_workflow_platfo.Base.Float.{Float, FloatOps}
use agentops_workflow_platfo.Engine.Status.{Status}
use agentops_workflow_platfo.Engine.World.{
  DurableJob, JobStatus, queued, running, completed, failed, cancelled, World, job_key, find_job,
  job_change,
}
use agentops_workflow_platfo.Engine.Action.{
  value_error, integrity_error, lease_lost, stale_workflow, Action, gets, modify, raise_if, ◌>>=◌,
  ◌>>◌,
}
use agentops_workflow_platfo.Engine.Authority.{event}

pub record Claim : Type 0 where
  pub id : ℕ
  pub organization_id : ℕ
  pub execution_id : ℕ
  pub sequence : ℕ
  pub token : ℕ

abbrev pub same_job : JobStatus → JobStatus → Bool
same_job queued queued = true
same_job running running = true
same_job completed completed = true
same_job failed failed = true
same_job cancelled cancelled = true
same_job _ _ = false

-- jobs.c.status.in_(["queued", "running"])
abbrev pub is_open : JobStatus → Bool
is_open queued = true
is_open running = true
is_open _ = false

abbrev pub opt_eq : Option ℕ → ℕ → Bool
opt_eq none b = false
opt_eq (some a) b = a == b

abbrev pub terminal_job_status : Status → JobStatus
terminal_job_status Status.completed = completed
terminal_job_status Status.cancelled = cancelled
terminal_job_status _ = failed

-- COALESCE(node_id, '')
abbrev coalesce : Option String → String
coalesce none = ""
coalesce (some n) = n

-- uq_execution_job_sequence and uq_execution_active_job
abbrev clashes : DurableJob → DurableJob → Bool
clashes new j =
    j.execution_id == new.execution_id
    && (j.sequence == new.sequence
        || (is_open j.status
            && str_eq (coalesce j.node_id) (coalesce new.node_id)
            && j.iteration == new.iteration))

abbrev due_or : Option ℕ → ℕ → ℕ
due_or none now = now
due_or (some t) now = t

abbrev new_job : World → ℕ → Option ℕ → Option String → ℕ → String → DurableJob
new_job w sequence due_at node_id iteration branch = record {
  id = w.next_uuid;
  organization_id = w.tenant;
  execution_id = w.run.id;
  sequence = sequence;
  node_id = node_id;
  iteration = iteration;
  branch = branch;
  status = queued;
  attempt_id = none;
  claim_token = none;
  worker_id = none;
  due_at = due_or due_at w.now;
  claimed_at = none;
  dispatched_at = none;
  completed_at = none;
  error_code = none;
  lease_expires_at = none;
  heartbeat_at = none;
  recovery_count = 0;
}

abbrev insert_job : DurableJob → World → World
insert_job j w = record w {
  jobs = w.jobs ++ j ∷ [];
  next_uuid = suc w.next_uuid;
  events = w.events ++ event w.run.id j.id (job_change none queued) ∷ [];
}

unfoldable pub enqueue : ℕ → Option ℕ → Option String → ℕ → String → Action (Unit {0})
enqueue sequence due_at node_id iteration branch = do
  job ← gets (λ w. new_job w sequence due_at node_id iteration branch)
  taken ← gets (λ w. any (clashes job) w.jobs)
  raise_if taken integrity_error
  modify (insert_job job)

abbrev pub lease_live : Option ℕ → ℕ → Bool
lease_live none now = false
lease_live (some t) now = ltb now t

-- The row is held by this claim: same job, organization, execution, token and sequence, and running.
abbrev pub held_by : Claim → DurableJob → Bool
held_by claim j =
    j.organization_id == claim.organization_id
    && j.execution_id == claim.execution_id
    && opt_eq j.claim_token claim.token
    && j.sequence == claim.sequence
    && same_job j.status running

abbrev pub keep_if : (DurableJob → Bool) → Option DurableJob → Option DurableJob
keep_if p none = none
keep_if p (some j) = if p j then some j else none

unfoldable pub claimed_row : Claim → Bool → World → Option DurableJob
claimed_row claim allow_expired w =
    keep_if (λ j. held_by claim j && (allow_expired || lease_live j.lease_expires_at w.now))
      (find_job w claim.id)

unfoldable pub locked_claim : Claim → Bool → Action (Option DurableJob)
unfolding claimed_row
locked_claim claim allow_expired = do
  tenant ← gets (λ w. w.tenant)
  raise_if (not (tenant == claim.organization_id))
      (value_error "Claim does not belong to the worker session organization")
  gets (claimed_row claim allow_expired)

abbrev pub closed_job : JobStatus → Option String → ℕ → DurableJob → DurableJob
closed_job status code now j = record j {
  status = status;
  error_code = code;
  completed_at = some now;
}

abbrev pub close_job_in : JobStatus → Option String → World → Option DurableJob → World
close_job_in status code w none = w
close_job_in status code w (some j) = record w {
  jobs = put job_key (closed_job status code w.now j) w.jobs;
  events = w.events ++ event w.run.id j.id (job_change (some j.status) status) ∷ [];
}

abbrev pub is_final : JobStatus → Bool
is_final completed = true
is_final failed = true
is_final cancelled = true
is_final _ = false

unfoldable pub finish_job : Claim → JobStatus → Option String → Bool → Action (Unit {0})
unfolding locked_claim
finish_job claim status code allow_expired = do
  run ← gets (λ w. w.run)
  raise_if (not (run.id == claim.execution_id))
      (value_error "Job completion requires its execution transaction")
  raise_if (not (is_final status)) lease_lost
  row ← locked_claim claim allow_expired
  raise_if (not (is_some row)) lease_lost
  modify (λ w. close_job_in status code w (find_job w claim.id))

abbrev pub is_live_job : World → DurableJob → Bool
is_live_job w j = j.execution_id == w.run.id && j.organization_id == w.tenant && is_open j.status

-- The loop over the selected rows: each is closed in place, and recorded in order.
abbrev pub close_live_jobs : JobStatus → Option String → World → World
close_live_jobs status code w = record w {
  jobs = map (λ j. if is_live_job w j then closed_job status code w.now j else j) w.jobs;
  events =
      w.events
      ++ map (λ j. event w.run.id j.id (job_change (some j.status) status))
          (select (is_live_job w) w.jobs);
}

abbrev pub is_failure : JobStatus → Bool
is_failure failed = true
is_failure cancelled = true
is_failure _ = false

unfoldable pub terminate_jobs : JobStatus → String → Action (Unit {0})
terminate_jobs status code = do
  raise_if (not (is_failure status)) (value_error "Invalid terminal job status")
  modify (close_live_jobs status (some code))

-- A row that was handed to an executor cannot be consumed by a local wait.
abbrev pub is_dispatched : World → DurableJob → Bool
is_dispatched w j = is_live_job w j && (is_some j.attempt_id || is_some j.dispatched_at)

unfoldable pub settle_local_checkpoint : Action (Unit {0})
settle_local_checkpoint = do
  dispatched ← gets (λ w. any (is_dispatched w) w.jobs)
  raise_if dispatched stale_workflow
  modify (close_live_jobs completed none)

abbrev pub is_queued_row : World → DurableJob → Bool
is_queued_row w j =
    j.execution_id == w.run.id && j.organization_id == w.tenant && same_job j.status queued

unfoldable pub fail_queued_job : ℕ → String → Action (Unit {0})
fail_queued_job i code = do
  row ← gets (λ w. keep_if (is_queued_row w) (find_job w i))
  raise_if (not (is_some row)) stale_workflow
  modify (λ w. close_job_in failed (some code) w row)

module _ (fl : FloatOps) (worker_lease_seconds : Float) where
  abbrev lease_until : World → ℕ
  lease_until w = later w.now (fl.timedelta worker_lease_seconds)

  abbrev renew_in : World → Option DurableJob → Bool × World
  renew_in w none = (false, w)
  renew_in w (some j) = (
    true,
    record w {
      jobs =
          put job_key
            (record j { heartbeat_at = some w.now; lease_expires_at = some (lease_until w) })
            w.jobs;
    },
  )

  abbrev renewable : Claim → World → DurableJob → Bool
  renewable claim w j =
      j.organization_id == claim.organization_id
      && j.execution_id == claim.execution_id
      && opt_eq j.claim_token claim.token
      && same_job j.status running
      && lease_live j.lease_expires_at w.now

  -- The answer says whether a row was updated.
  unfoldable pub renew_lease : Claim → World → Bool × World
  renew_lease claim w = renew_in w (keep_if (renewable claim w) (find_job w claim.id))
