-- ===== src/Engine/Leases.antt =====
-- `recover_claim` of services/worker_leases.py: an expired lease is taken back, its attempts are
-- abandoned, and the checkpoint is queued again or the execution fails. The audit row is left out.
use Prim.Native.Nat.{max}
use agentops_workflow_platfo.Base.{
  ℕ, suc, String, str_eq, Bool, true, false, not, ◌&&◌, Option, none, some, List, [], ◌∷◌, ◌++◌,
  map, select, ◌==◌, ltb, if◌then◌else◌, is_some, length,
}
use agentops_workflow_platfo.Base.Tables.{put}
use agentops_workflow_platfo.Base.Float.{Float, FloatOps}
use agentops_workflow_platfo.Engine.Status.{running, retrying, failed, terminal, among}
use agentops_workflow_platfo.Engine.World.{
  StepRun, StepAttempt, retryable, DurableJob, JobStatus, World, job_key, find_job, job_change,
}
use agentops_workflow_platfo.Engine.Action.{
  no_recovery, stale_workflow, lease_lost, Result, ok, err, Action, pure, raise, gets, modify, when,
  for_each, ◌>>=◌, ◌>>◌,
}
use agentops_workflow_platfo.Engine.Authority.{is_child, event, whole_run, transition}
use agentops_workflow_platfo.Engine.Records.{pinned_node, reload_step}
use agentops_workflow_platfo.Engine.Retry.{Decision, past, retry_decision}
use agentops_workflow_platfo.Engine.Transaction.{transaction}
use agentops_workflow_platfo.Engine.Jobs.{
  Claim, locked_claim, finish_job, terminate_jobs, terminal_job_status,
}
use agentops_workflow_platfo.Engine.Endings.{
  live_attempts, lift, set_classification, set_attempt_error, move_attempt, set_step_next,
  set_step_error, move_step, set_run_error, cancel_siblings_if_parallel,
}

-- The variables of the loop over the active steps.
pub record Recovery : Type 0 where
  pub retry : Bool
  pub exhausted_code : String
  pub next_due : ℕ

abbrev same_node : Option String → ℕ → StepRun → Bool
same_node none iteration s = true
same_node (some n) iteration s = str_eq s.node_id n && s.iteration == iteration

abbrev pub is_claimed_step : DurableJob → World → StepRun → Bool
is_claimed_step row w s =
    is_child w.run.id s && not (among s.status terminal) && same_node row.node_id row.iteration s

abbrev pub claimed_steps : DurableJob → World → List ℕ
claimed_steps row w = map (λ s. s.id) (select (is_claimed_step row w) w.steps)

abbrev attempts_of : ℕ → World → List StepAttempt
attempts_of i w = select (λ a. a.step_run_id == i) w.attempts

abbrev max_opt : ℕ → Option ℕ → ℕ
max_opt t none = t
max_opt t (some due) = max t due

unfoldable pub abandon_attempt : ℕ → Action (Unit {0})
unfolding set_classification set_attempt_error move_attempt
abandon_attempt a = do
  set_classification a retryable
  set_attempt_error a "worker_abandoned"
  move_attempt a failed

abbrev pub after_decision : Recovery → Decision → StepRun → Recovery
after_decision r d step = record {
  retry = r.retry && is_some d.due && among step.status (running ∷ retrying ∷ []);
  exhausted_code = if str_eq d.code "run_deadline" then d.code else r.exhausted_code;
  next_due = max_opt r.next_due d.due;
}

-- `samples` gives `random.random()` for each step.
module _ (fl : FloatOps) (samples : ℕ → Float) where
  unfoldable pub abandon_step : ℕ → Recovery → Action Recovery
  unfolding abandon_attempt pinned_node
  abandon_step i r = do
    step ← reload_step i
    attempts ← gets (attempts_of i)
    open_attempts ← gets (live_attempts i)
    for_each open_attempts abandon_attempt
    node ← pinned_node step.node_id
    w ← gets (λ w. w)
    decision ← lift (
        retry_decision fl node.retry (length attempts) "worker_abandoned" w.now w.run.deadline_at
          (samples i) true none)
    pure (after_decision r decision step)

  unfoldable pub abandon_steps : List ℕ → Recovery → Action Recovery
  unfolding abandon_step
  abandon_steps [] r = pure r
  abandon_steps (i ∷ rest) r = do r' ← abandon_step i r; abandon_steps rest r'

unfoldable pub reschedule_step : Recovery → ℕ → Action (Unit {0})
unfolding set_step_next move_step
reschedule_step r i = do
  set_step_next i (some r.next_due)
  step ← reload_step i
  when (among step.status (running ∷ [])) (move_step i retrying)

unfoldable pub exhaust_step : Recovery → ℕ → Action (Unit {0})
unfolding set_step_next set_step_error move_step
exhaust_step r i = do
  set_step_next i none
  set_step_error i (some r.exhausted_code)
  move_step i failed

abbrev pub requeued : ℕ → DurableJob → DurableJob
requeued due j = record j {
  status = JobStatus.queued;
  claim_token = none;
  worker_id = none;
  claimed_at = none;
  dispatched_at = none;
  attempt_id = none;
  lease_expires_at = none;
  heartbeat_at = none;
  recovery_count = suc j.recovery_count;
  due_at = due;
}

abbrev pub requeue_in : ℕ → World → Option DurableJob → World
requeue_in due w none = w
requeue_in due w (some j) = record w {
  jobs = put job_key (requeued due j) w.jobs;
  events =
      w.events ++ event w.run.id j.id (job_change (some JobStatus.running) JobStatus.queued) ∷ [];
}

unfoldable pub give_up : Claim → String → Action (Unit {0})
unfolding set_run_error cancel_siblings_if_parallel finish_job terminate_jobs
give_up claim code = do
  set_run_error code
  cancel_siblings_if_parallel
  transition whole_run failed
  finish_job claim JobStatus.failed (some code) true
  terminate_jobs JobStatus.cancelled code

unfoldable pub requeue : Claim → ℕ → Action (Unit {0})
requeue claim due = modify (λ w. requeue_in due w (find_job w claim.id))

-- `except (NoRecovery, StaleWorkflowError): return False`; a lost lease is a stale workflow.
abbrev pub recovered : Result (Unit {0}) × World → Result Bool × World
recovered (ok _, w) = (ok true, w)
recovered (err no_recovery, w) = (ok false, w)
recovered (err stale_workflow, w) = (ok false, w)
recovered (err lease_lost, w) = (ok false, w)
recovered (err e, w) = (err e, w)

module _ (fl : FloatOps) (samples : ℕ → Float) (worker_max_recoveries : ℕ) where
  abbrev pub first_guess : World → DurableJob → Recovery
  first_guess w row =
      let late = past w.run.deadline_at w.now in
      record {
        retry = ltb row.recovery_count worker_max_recoveries && not late;
        exhausted_code = if late then "run_deadline" else "recovery_exhausted";
        next_due = w.now;
      }

  abbrev pub settle_recovery : Claim → List ℕ → Recovery → Action (Unit {0})
  settle_recovery claim rows r =
      if r.retry
      then (do for_each rows (reschedule_step r); requeue claim r.next_due)
      else (do for_each rows (exhaust_step r); give_up claim r.exhausted_code)

  unfoldable pub recover_live : Claim → DurableJob → Action (Unit {0})
  unfolding abandon_steps reschedule_step exhaust_step give_up requeue
  recover_live claim row = do
    guess ← gets (λ w. first_guess w row)
    rows ← gets (claimed_steps row)
    r ← abandon_steps fl samples rows guess
    settle_recovery claim rows r

  abbrev pub recover_row : Claim → DurableJob → Action (Unit {0})
  recover_row claim row = do
    run ← gets (λ w. w.run)
    if among run.status terminal
        then finish_job claim (terminal_job_status run.status) run.error_code true
        else recover_live claim row

  -- `row["lease_expires_at"] > now`; a running row has a lease by the table's check constraint.
  abbrev pub still_owned : Option ℕ → ℕ → Bool
  still_owned none now = false
  still_owned (some t) now = ltb now t

  abbrev pub expired_row : World → Option DurableJob → Option DurableJob
  expired_row w none = none
  expired_row w (some row) = if still_owned row.lease_expires_at w.now then none else some row

  abbrev pub recover_found : Claim → Option DurableJob → Action (Unit {0})
  recover_found claim none = raise no_recovery
  recover_found claim (some row) = recover_row claim row

  unfoldable pub recover_body : Claim → Action (Unit {0})
  unfolding locked_claim finish_job recover_live
  recover_body claim = do
    row ← locked_claim claim true
    expired ← gets (λ w. expired_row w row)
    recover_found claim expired

  unfoldable pub recover_claim : Claim → Action Bool
  unfolding recover_body transaction
  recover_claim claim w = recovered (transaction none (recover_body claim) w)
