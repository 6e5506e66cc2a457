-- ===== src/Engine/Fencing/Stopped.antt =====
-- What the workers of a cancelled execution may still write: `cancel_execution` of
-- services/execution_cancellation.py, and `finish_job` of services/durable_queue.py after it.
use mathlib.Core.Option
use agentops_workflow_platfo.Base.{
  ℕ, String, ◌≡◌, refl, ap, subst, Bool, true, false, ◌&&◌, ◌||◌, Option, none, some, ◌==◌,
  if◌then◌else◌, arith, Bool-cases, inl, inr,
}
use agentops_workflow_platfo.Base.Tables.{find, find-map}
use agentops_workflow_platfo.Permissions.{Principal, permits}
use agentops_workflow_platfo.Engine.Status.{Status, cancelled, terminal, among}
use agentops_workflow_platfo.Engine.World.{
  World, StepRun, StepAttempt, ExecutionApproval, ApprovalStatus, DurableJob, JobStatus, job_key,
  find_step, find_attempt,
}
use agentops_workflow_platfo.Engine.Action.{ok, err, lease_lost, modify, ◌>>=◌}
use agentops_workflow_platfo.Engine.Authority.{
  Entity, whole_run, of_step, of_attempt, moved, moved_step_in, moved_attempt_in, transition,
  transition_forbidden,
}
use agentops_workflow_platfo.Engine.Endings.{
  write_step, write_attempt, resolved_in, resolve, close_pending, set_step_error, set_step_next,
  set_attempt_error, set_run_error, move_step, move_attempt, cancel_attempt, cancel_step,
}
use agentops_workflow_platfo.Engine.Cancellation.{stop_all_work, cancel_execution}
use agentops_workflow_platfo.Engine.Jobs.{
  Claim, claimed_row, held_by, keep_if, is_open, closed_job, close_live_jobs, is_live_job,
  lease_live, finish_job,
}
use agentops_workflow_platfo.Engine.Keeps.{
  Keeps, Keeps-modify, Keeps-gets, Keeps-for_each, keeps_rules, Brings, Brings-bind, Brings-Keeps,
}
use agentops_workflow_platfo.Engine.Transaction.Commits.{transaction-Brings}
use agentops_workflow_platfo.Engine.Fencing.{IsFenced}
use agentops_workflow_platfo.Engine.Fencing.Exclusive.{finish_job-lease_lost}

module _ (claim : Claim) where
  -- The rows are of the execution and of the organization that the claim names.
  abbrev Stands : World → Type 0
  Stands w = (w.run.id ≡ claim.execution_id) × (w.tenant ≡ claim.organization_id)

  abbrev Shut : World → Type 0
  Shut w = Stands w × IsFenced claim w

  step-Stands :
      (f : StepRun → StepRun) (o : Option StepRun) (w : World)
      → Stands w
      → Stands (write_step f o w)
  step-Stands f none w h = h
  step-Stands f (some s) w h = h

  attempt-Stands :
      (f : StepAttempt → StepAttempt) (o : Option StepAttempt) (w : World)
      → Stands w
      → Stands (write_attempt f o w)
  attempt-Stands f none w h = h
  attempt-Stands f (some a) w h = h

  resolved-Stands :
      (w : World) (status : ApprovalStatus) (o : Option ExecutionApproval)
      → Stands w
      → Stands (resolved_in w status none none none o)
  resolved-Stands w status none h = h
  resolved-Stands w status (some a) h = h

  moved-Stands : (w : World) (e : Entity) (new : Status) → Stands w → Stands (moved w e new)
  unfolding moved
  moved-Stands w whole_run new h = h
  moved-Stands w (of_step i seen) new h = go (find_step w i)
    where
      go : (o : Option StepRun) → Stands (moved_step_in w new o)
      go none = h
      go (some s) = h
  moved-Stands w (of_attempt i seen) new h = go (find_attempt w i)
    where
      go : (o : Option StepAttempt) → Stands (moved_attempt_in w new o)
      go none = h
      go (some s) = h

  transition-Stands : (e : Entity) (new : Status) → Keeps Stands (transition e new)
  unfolding transition
  transition-Stands e new = record {
    at = λ w h. elim (Bool-cases (transition_forbidden w e new)) [
      | inl no_way ↦ rw no_way h
      | inr free ↦ rw free (moved-Stands w e new h)
    ];
  }

  set_step_error-Stands : (i : ℕ) (code : Option String) → Keeps Stands (set_step_error i code)
  unfolding set_step_error
  set_step_error-Stands i code = Keeps-modify _ λ w h. step-Stands _ (find_step w i) w h

  set_step_next-Stands : (i : ℕ) (due : Option ℕ) → Keeps Stands (set_step_next i due)
  unfolding set_step_next
  set_step_next-Stands i due = Keeps-modify _ λ w h. step-Stands _ (find_step w i) w h

  set_attempt_error-Stands : (i : ℕ) (code : String) → Keeps Stands (set_attempt_error i code)
  unfolding set_attempt_error
  set_attempt_error-Stands i code = Keeps-modify _ λ w h. attempt-Stands _ (find_attempt w i) w h

  resolve-Stands :
      (status : ApprovalStatus) (i : ℕ) → Keeps Stands (resolve status none none none i)
  unfolding resolve
  resolve-Stands status i = Keeps-modify _ λ w h. resolved-Stands w status _ h

  move_step-Stands : (i : ℕ) (new : Status) → Keeps Stands (move_step i new)
  unfolding move_step
  move_step-Stands i new = search (keeps_rules, transition-Stands) depth 8

  move_attempt-Stands : (i : ℕ) (new : Status) → Keeps Stands (move_attempt i new)
  unfolding move_attempt
  move_attempt-Stands i new = search (keeps_rules, transition-Stands) depth 8

  cancel_attempt-Stands : (code : String) (i : ℕ) → Keeps Stands (cancel_attempt code i)
  unfolding cancel_attempt
  cancel_attempt-Stands code i =
      search (keeps_rules, set_attempt_error-Stands, move_attempt-Stands) depth 8

  cancel_step-Stands : (code : String) (i : ℕ) → Keeps Stands (cancel_step code i)
  unfolding cancel_step
  cancel_step-Stands code i =
      search
        (
          keeps_rules, cancel_attempt-Stands, set_step_next-Stands, set_step_error-Stands,
          move_step-Stands,
        )
        depth 8

  close_pending-Stands : (status : ApprovalStatus) → Keeps Stands (close_pending status)
  unfolding close_pending
  close_pending-Stands status = search (keeps_rules, resolve-Stands) depth 8

  -- No open row of the execution is left that the claim could hold.
  closed_unheld :
      (w : World) (code : Option String) (j : DurableJob)
      → Stands w
      → held_by claim (if is_live_job w j then closed_job JobStatus.cancelled code w.now j else j)
        ≡ false
  closed_unheld w code j h = elim (Bool-cases (is_live_job w j)) [
    | inl live ↦ rw live (ground arith)
    | inr over ↦ rw over (unheld (rw (h.0, h.1) at over))
  ]
    where
      unheld :
          (j.execution_id == claim.execution_id
              && j.organization_id == claim.organization_id
              && is_open j.status)
            ≡ false
          → held_by claim j ≡ false
      unheld e = ground (arith, e)

  close_live_jobs-Shut :
      (w : World) (code : Option String)
      → Stands w
      → Shut (close_live_jobs JobStatus.cancelled code w)
  unfolding claimed_row
  close_live_jobs-Shut w code h = (
    h,
    rw (find-map job_key close (λ j. close-id j) claim.id w.jobs)
        (all_unheld (find job_key claim.id w.jobs)),
  )
    where
      close : DurableJob → DurableJob
      close j = if is_live_job w j then closed_job JobStatus.cancelled code w.now j else j

      close-id : (j : DurableJob) → (close j).id ≡ j.id
      close-id j = elim (Bool-cases (is_live_job w j)) [ inl e ↦ rw e refl | inr e ↦ rw e refl ]

      all_unheld :
          (o : Option DurableJob)
          → keep_if
              (λ j. held_by claim j && (true || lease_live j.lease_expires_at w.now))
              (Option.map close o)
            ≡ none
      all_unheld none = refl
      all_unheld (some j) = rw (closed_unheld w code j h) refl

  transition-Shut : (new : Status) → Keeps Shut (transition whole_run new)
  unfolding transition moved claimed_row
  transition-Shut new = record {
    at = λ w h. elim (Bool-cases (transition_forbidden w whole_run new)) [
      | inl no_way ↦ rw no_way h
      | inr free ↦ rw free h
    ];
  }

  set_run_error-Shut : (code : String) → Keeps Shut (set_run_error code)
  unfolding set_run_error claimed_row
  set_run_error-Shut code = Keeps-modify _ λ w h. h

  jobs_closed : Brings Stands (modify (close_live_jobs JobStatus.cancelled (some "cancelled"))) Shut
  unfolding modify
  jobs_closed = record {
    at = λ w a u h e. subst Shut (ap (λ r. r.1) e) (close_live_jobs-Shut w (some "cancelled") h);
  }

  stop_all_work-Shut :
      (user : Option ℕ) (reason : Option String) → Brings Stands (stop_all_work user reason) Shut
  unfolding stop_all_work
  stop_all_work-Shut user reason =
      Brings-bind _ _ (Brings-Keeps _ (close_pending-Stands ApprovalStatus.cancelled)) λ _.
        Brings-bind _ _ (Brings-Keeps _ (Keeps-modify _ λ w h. h)) λ _.
          Brings-bind _ _ (Brings-Keeps _ (Keeps-gets _)) λ rows.
            Brings-bind _ _
              (Brings-Keeps _ (Keeps-for_each rows _ (cancel_step-Stands "cancelled")))
              λ _. Brings-bind _ _ jobs_closed λ _.
                Brings-bind _ _ (Brings-Keeps _ (set_run_error-Shut "cancelled"))
                  λ _. Brings-Keeps _ (transition-Shut cancelled)

  cancel_execution-Shut :
      (p : Principal) (reason : Option String) (w u : World)
      → among w.run.status terminal ≡ false
      → Stands w
      → cancel_execution p reason w ≡ (ok tt, u)
      → Shut u
  unfolding cancel_execution ◌>>=◌ claimed_row
  cancel_execution-Shut p reason w u going stands h =
      elim (Bool-cases (permits p "workflow.control")) [
        | inr denied ↦ absurd (ground (arith, ap (λ r. r.0) (rw denied at h)))
        | inl allowed ↦
            (transaction-Brings Stands Shut none _ (λ v revision shut. shut)
                (stop_all_work-Shut p.user_id reason)).at
              w tt u stands (rw (allowed, going) at h)
      ]

-- Once the cancellation of an execution that had not ended has returned, no claim of a job of that
-- execution, in its organization, can finish its job: `finish_job` raises `lease_lost` and writes nothing,
-- whatever the claim's token and even when an expired lease is allowed.
pub cancel_execution-lease_lost :
    (p : Principal) (reason : Option String) (claim : Claim) (status : JobStatus)
    (code : Option String) (allow_expired : Bool) (w u : World)
    → among w.run.status terminal ≡ false
    → w.run.id ≡ claim.execution_id
    → w.tenant ≡ claim.organization_id
    → cancel_execution p reason w ≡ (ok tt, u)
    → finish_job claim status code allow_expired u ≡ (err lease_lost, u)
cancel_execution-lease_lost p reason claim status code allow_expired w u going run tenant h =
    let shut = cancel_execution-Shut claim p reason w u going (run, tenant) h in
    finish_job-lease_lost claim status code allow_expired u shut.0.0 shut.0.1 shut.1
