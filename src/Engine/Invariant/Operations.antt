-- ===== src/Engine/Invariant/Operations.antt =====
-- Whole operations keep the invariant: cancellation, recovery, new steps and new attempts.
use agentops_workflow_platfo.Base.{
  ℕ, String, refl, Bool, true, false, Option, none, some, List, [], ◌∷◌, ◌==◌, if◌then◌else◌,
  Bool-cases, inl, inr,
}
use agentops_workflow_platfo.Base.Float.{Float, FloatOps}
use agentops_workflow_platfo.Permissions.{Principal}
use agentops_workflow_platfo.Engine.World.{World, DurableJob, JobStatus, find_job}
use agentops_workflow_platfo.Engine.Action.{Error, no_recovery, Result, ok, err, Action, modify}
use agentops_workflow_platfo.Engine.Transaction.{transaction, commit, expected_or}
use agentops_workflow_platfo.Engine.Records.{reload_step}
use agentops_workflow_platfo.Engine.Jobs.{
  Claim, close_live_jobs, close_job_in, locked_claim, finish_job, terminate_jobs,
  settle_local_checkpoint, fail_queued_job,
}
use agentops_workflow_platfo.Engine.Cancellation.{request_cancel, stop_all_work, cancel_execution}
use agentops_workflow_platfo.Engine.Leases.{
  Recovery, requeue_in, abandon_attempt, abandon_step, abandon_steps, reschedule_step, exhaust_step,
  give_up, requeue, recover_found, recovered, recover_live, recover_body, recover_claim,
}
use agentops_workflow_platfo.Engine.Keeps.{
  Keeps-modify, Keeps-pure, Keeps-raise, Keeps-gets, Keeps-bind, keeps_rules,
}
use agentops_workflow_platfo.Engine.Invariant.{Inv}
use agentops_workflow_platfo.Engine.Invariant.Actions.{
  KeepsInv, Inv-frame, ending_rules, lift-Inv, pinned_node-Inv, siblings-Inv,
}

-- A commit writes the revision of the execution and nothing that the invariant reads; a rollback
-- gives the old rows back.
commit-Inv :
    {A : Type 0} (expected : ℕ) (w : World) (r : Result A × World)
    → Inv w
    → Inv r.1
    → Inv (commit expected w r).1
commit-Inv expected w (ok a, u) v h = Inv-frame refl refl refl refl h
commit-Inv expected w (err e, u) v h = v

pub transaction-Inv :
    {A : Type 0} (expected : Option ℕ) (m : Action A)
    → KeepsInv m
    → KeepsInv (transaction expected m)
unfolding transaction
transaction-Inv expected m k = record {
  at = λ w v.
      let revision = expected_or expected w.run.state_revision in
      elim (Bool-cases (w.run.state_revision == revision)) [
        | inl fresh ↦ rw fresh (commit-Inv revision w (m w) v (k.at w v))
        | inr stale ↦ rw stale v
      ];
}

requeue_in-Inv : (due : ℕ) (w : World) (o : Option DurableJob) → Inv w → Inv (requeue_in due w o)
requeue_in-Inv due w none v = v
requeue_in-Inv due w (some j) v = Inv-frame refl refl refl refl v

close_job_in-Inv :
    (status : JobStatus) (code : Option String) (w : World) (o : Option DurableJob)
    → Inv w
    → Inv (close_job_in status code w o)
close_job_in-Inv status code w none v = v
close_job_in-Inv status code w (some j) v = Inv-frame refl refl refl refl v

close_live_jobs-Inv :
    (status : JobStatus) (code : Option String) → KeepsInv (modify (close_live_jobs status code))
close_live_jobs-Inv status code = Keeps-modify _ λ w v. Inv-frame refl refl refl refl v

close_found-Inv :
    (status : JobStatus) (code : Option String) (i : ℕ)
    → KeepsInv (modify (λ w. close_job_in status code w (find_job w i)))
close_found-Inv status code i =
    Keeps-modify _ λ w v. close_job_in-Inv status code w (find_job w i) v

close_row-Inv :
    (status : JobStatus) (code : Option String) (o : Option DurableJob)
    → KeepsInv (modify (λ w. close_job_in status code w o))
close_row-Inv status code o = Keeps-modify _ λ w v. close_job_in-Inv status code w o v

requeue-Inv : (claim : Claim) (due : ℕ) → KeepsInv (requeue claim due)
unfolding requeue
requeue-Inv claim due = Keeps-modify _ λ w v. requeue_in-Inv due w (find_job w claim.id) v

locked_claim-Inv :
    (claim : Claim) (allow_expired : Bool) → KeepsInv (locked_claim claim allow_expired)
unfolding locked_claim
locked_claim-Inv claim allow_expired = search keeps_rules

ruleset job_rules = (
  ending_rules, close_live_jobs-Inv, close_found-Inv, close_row-Inv, locked_claim-Inv, requeue-Inv,
)

pub finish_job-Inv :
    (claim : Claim) (status : JobStatus) (code : Option String) (allow_expired : Bool)
    → KeepsInv (finish_job claim status code allow_expired)
unfolding finish_job
finish_job-Inv claim status code allow_expired = search job_rules depth 8

pub terminate_jobs-Inv :
    (status : JobStatus) (code : String) → KeepsInv (terminate_jobs status code)
unfolding terminate_jobs
terminate_jobs-Inv status code = search job_rules

pub settle_local_checkpoint-Inv : KeepsInv settle_local_checkpoint
unfolding settle_local_checkpoint
settle_local_checkpoint-Inv = search job_rules

pub fail_queued_job-Inv : (i : ℕ) (code : String) → KeepsInv (fail_queued_job i code)
unfolding fail_queued_job
fail_queued_job-Inv i code = search job_rules

request_cancel-Inv :
    (user : Option ℕ) (reason : Option String) → KeepsInv (modify (request_cancel user reason))
request_cancel-Inv user reason = Keeps-modify _ λ w v. Inv-frame refl refl refl refl v

stop_all_work-Inv :
    (user : Option ℕ) (reason : Option String) → KeepsInv (stop_all_work user reason)
unfolding stop_all_work
stop_all_work-Inv user reason = search (job_rules, request_cancel-Inv) depth 12

-- `if` in an action
Keeps-if :
    {A : Type 0} (b : Bool) (m n : Action A)
    → KeepsInv m
    → KeepsInv n
    → KeepsInv (if b then m else n)
Keeps-if true m n km kn = km
Keeps-if false m n km kn = kn

pub cancel_execution-Inv :
    (p : Principal) (reason : Option String) → KeepsInv (cancel_execution p reason)
unfolding cancel_execution
cancel_execution-Inv p reason =
    search (keeps_rules, Keeps-if, transaction-Inv, stop_all_work-Inv) depth 8

abandon_attempt-Inv : (i : ℕ) → KeepsInv (abandon_attempt i)
unfolding abandon_attempt
abandon_attempt-Inv i = search ending_rules

reload_step-Inv : (i : ℕ) → KeepsInv (reload_step i)
reload_step-Inv i = search keeps_rules

module _ (fl : FloatOps) (samples : ℕ → Float) where
  abandon_step-Inv : (i : ℕ) (r : Recovery) → KeepsInv (abandon_step fl samples i r)
  unfolding abandon_step
  abandon_step-Inv i r =
      search (ending_rules, abandon_attempt-Inv, reload_step-Inv, lift-Inv, pinned_node-Inv) depth
        12

  abandon_steps-Inv : (rows : List ℕ) (r : Recovery) → KeepsInv (abandon_steps fl samples rows r)
  unfolding abandon_steps
  abandon_steps-Inv [] r = Keeps-pure r
  abandon_steps-Inv (i ∷ rest) r =
      Keeps-bind (abandon_step fl samples i r) (λ r'. abandon_steps fl samples rest r')
        (abandon_step-Inv i r) (λ r'. abandon_steps-Inv rest r')

reschedule_step-Inv : (r : Recovery) (i : ℕ) → KeepsInv (reschedule_step r i)
unfolding reschedule_step
reschedule_step-Inv r i = search (ending_rules, reload_step-Inv) depth 8

exhaust_step-Inv : (r : Recovery) (i : ℕ) → KeepsInv (exhaust_step r i)
unfolding exhaust_step
exhaust_step-Inv r i = search ending_rules

give_up-Inv : (claim : Claim) (code : String) → KeepsInv (give_up claim code)
unfolding give_up
give_up-Inv claim code =
    search (ending_rules, siblings-Inv, finish_job-Inv, terminate_jobs-Inv) depth 8

module _ (fl : FloatOps) (samples : ℕ → Float) (max_recoveries : ℕ) where
  recover_live-Inv :
      (claim : Claim) (row : DurableJob)
      → KeepsInv (recover_live fl samples max_recoveries claim row)
  unfolding recover_live
  recover_live-Inv claim row =
      search
        (
          keeps_rules, abandon_steps-Inv, Keeps-if, reschedule_step-Inv, exhaust_step-Inv,
          give_up-Inv, requeue-Inv,
        )
        depth 10

  recover_body-Inv : (claim : Claim) → KeepsInv (recover_body fl samples max_recoveries claim)
  unfolding recover_body
  recover_body-Inv claim =
      Keeps-bind _ _ (locked_claim-Inv claim true)
        λ row. Keeps-bind _ _ (Keeps-gets _) (found-Inv claim)
    where
      found-Inv :
          (claim : Claim) (o : Option DurableJob)
          → KeepsInv (recover_found fl samples max_recoveries claim o)
      found-Inv claim none = Keeps-raise no_recovery
      found-Inv claim (some row) =
          search (keeps_rules, Keeps-if, finish_job-Inv, recover_live-Inv) depth 8

  recovered-Inv : (r : Result (Unit {0}) × World) → Inv r.1 → Inv (recovered r).1
  recovered-Inv (ok _, w) v = v
  recovered-Inv (err Error.no_recovery, w) v = v
  recovered-Inv (err _, w) v = v

  pub recover_claim-Inv : (claim : Claim) → KeepsInv (recover_claim fl samples max_recoveries claim)
  unfolding recover_claim
  recover_claim-Inv claim = record {
    at = λ w v.
        recovered-Inv (transaction none (recover_body fl samples max_recoveries claim) w)
          ((transaction-Inv none _ (recover_body-Inv claim)).at w v);
  }
