-- ===== src/Engine/Endings.antt =====
-- How attempts, steps and executions end: services/retry_runtime.py (`fail_attempt`,
-- `expire_execution`), services/parallel_runtime.py (`cancel_siblings`),
-- services/graph_interpreter.py (`fail_execution`) and services/approval_runtime.py
-- (`resolve`, `close_pending`). The texts of `error_message` are left out.
use agentops_workflow_platfo.Base.{
  ℕ, String, Bool, true, false, ◌&&◌, ◌==◌, Option, none, some, List, [], ◌∷◌, ◌++◌, map, select,
}
use agentops_workflow_platfo.Base.Tables.{find, put}
use agentops_workflow_platfo.Base.Float.{Float, FloatOps}
use agentops_workflow_platfo.Engine.Status.{Status, cancelled, failed, retrying}
use agentops_workflow_platfo.Engine.World.{
  StepRun, StepAttempt, ExecutionApproval, ApprovalStatus, Classification, permanent, World,
  step_key, attempt_key, approval_key, find_step, find_attempt, approval_change,
}
use agentops_workflow_platfo.Engine.Action.{
  Result, ok, err, Action, pure, raise, gets, modify, when, for_each, ◌>>=◌, ◌>>◌,
}
use agentops_workflow_platfo.Engine.Authority.{
  whole_run, the_step, the_attempt, is_active, is_live_child, event, transition,
}
use agentops_workflow_platfo.Engine.Records.{or_raise, reload_step, pinned_node}
use agentops_workflow_platfo.Engine.Retry.{retry_decision}

-- Assignments to an object of the session, which the next flush writes to its row.
abbrev pub write_step : (StepRun → StepRun) → Option StepRun → World → World
write_step f none w = w
write_step f (some s) w = record w { steps = put step_key (f s) w.steps }

abbrev pub write_attempt : (StepAttempt → StepAttempt) → Option StepAttempt → World → World
write_attempt f none w = w
write_attempt f (some a) w = record w { attempts = put attempt_key (f a) w.attempts }

unfoldable pub set_step_error : ℕ → Option String → Action (Unit {0})
set_step_error i code =
    modify λ w. write_step (λ s. record s { error_code = code }) (find_step w i) w

unfoldable pub set_step_next : ℕ → Option ℕ → Action (Unit {0})
set_step_next i due =
    modify λ w. write_step (λ s. record s { next_attempt_at = due }) (find_step w i) w

unfoldable pub set_attempt_error : ℕ → String → Action (Unit {0})
set_attempt_error i code =
    modify λ w. write_attempt (λ a. record a { error_code = some code }) (find_attempt w i) w

unfoldable pub set_classification : ℕ → Classification → Action (Unit {0})
set_classification i c =
    modify λ w. write_attempt (λ a. record a { error_classification = some c }) (find_attempt w i) w

unfoldable pub set_run_error : String → Action (Unit {0})
set_run_error code = modify λ w. record w { run = record w.run { error_code = some code } }

-- `transition(db, run, step, new)` on the session's own object
unfoldable pub move_step : ℕ → Status → Action (Unit {0})
move_step i new = do step ← reload_step i; transition (the_step step) new

unfoldable pub move_attempt : ℕ → Status → Action (Unit {0})
move_attempt i new = do
  found ← gets (λ w. find_attempt w i)
  a ← or_raise found "Execution entity status is stale or missing"
  transition (the_attempt a) new

abbrev pub live_steps : World → List ℕ
live_steps w = map (λ s. s.id) (select (is_live_child w.run.id) w.steps)

abbrev pub live_attempts : ℕ → World → List ℕ
live_attempts i w = map (λ a. a.id) (select (is_active i) w.attempts)

abbrev is_pending : ApprovalStatus → Bool
is_pending ApprovalStatus.pending = true
is_pending _ = false

abbrev pub is_pending_approval : World → ExecutionApproval → Bool
is_pending_approval w a = a.execution_id == w.run.id && is_pending a.status

abbrev pub or_else : Option String → Option String → Option String
or_else none b = b
or_else (some a) b = some a

abbrev pub resolved :
    World → ApprovalStatus → Option ℕ → Option String → Option String → ExecutionApproval → World
resolved w status actor feedback request_hash a = record w {
  approvals =
      put approval_key
        (record a {
          status = status;
          resolved_at = some w.now;
          decided_by_user_id = actor;
          human_feedback = or_else feedback a.human_feedback;
          request_hash = request_hash;
        })
        w.approvals;
  events =
      w.events ++ event w.run.id a.id (approval_change (some ApprovalStatus.pending) status) ∷ [];
}

abbrev pub resolved_in :
    World
    → ApprovalStatus
    → Option ℕ
    → Option String
    → Option String
    → Option ExecutionApproval
    → World
resolved_in w status actor feedback request_hash none = w
resolved_in w status actor feedback request_hash (some a) =
    resolved w status actor feedback request_hash a

unfoldable pub resolve :
    ApprovalStatus → Option ℕ → Option String → Option String → ℕ → Action (Unit {0})
resolve status actor feedback request_hash i =
    modify λ w. resolved_in w status actor feedback request_hash (find approval_key i w.approvals)

unfoldable pub close_pending : ApprovalStatus → Action (Unit {0})
unfolding resolve
close_pending status = do
  rows ← gets (λ w. map (λ a. a.id) (select (is_pending_approval w) w.approvals))
  for_each rows (resolve status none none none)

unfoldable pub cancel_attempt : String → ℕ → Action (Unit {0})
unfolding set_attempt_error move_attempt
cancel_attempt code a = do set_attempt_error a code; move_attempt a cancelled

-- The body of the loop of `cancel_siblings`, and of that of `cancel_execution`.
unfoldable pub cancel_step : String → ℕ → Action (Unit {0})
unfolding cancel_attempt set_step_next set_step_error move_step
cancel_step code i = do
  open_attempts ← gets (live_attempts i)
  for_each open_attempts (cancel_attempt code)
  set_step_next i none
  set_step_error i (some code)
  move_step i cancelled

unfoldable pub cancel_siblings : String → Action (Unit {0})
unfolding close_pending cancel_step
cancel_siblings code = do
  close_pending ApprovalStatus.cancelled
  rows ← gets live_steps
  for_each rows (cancel_step code)

abbrev pub run_deadline : String
run_deadline = "run_deadline"

unfoldable pub expire_attempt : ℕ → Action (Unit {0})
unfolding set_classification set_attempt_error move_attempt
expire_attempt a = do
  set_classification a permanent
  set_attempt_error a run_deadline
  move_attempt a failed

unfoldable pub expire_step : ℕ → Action (Unit {0})
unfolding expire_attempt set_step_next set_step_error move_step
expire_step i = do
  open_attempts ← gets (live_attempts i)
  for_each open_attempts expire_attempt
  set_step_next i none
  set_step_error i (some run_deadline)
  move_step i failed

unfoldable pub expire_execution : Action (Unit {0})
unfolding close_pending expire_step set_run_error
expire_execution = do
  close_pending ApprovalStatus.expired
  rows ← gets live_steps
  for_each rows expire_step
  set_run_error run_deadline
  transition whole_run failed

-- `if run.checkpoint_json.get("parallel_mode"): cancel_siblings(db, run)`
unfoldable pub cancel_siblings_if_parallel : Action (Unit {0})
unfolding cancel_siblings
cancel_siblings_if_parallel = do
  parallel ← gets (λ w. w.run.parallel_mode)
  when parallel (cancel_siblings "branch_failed")

unfoldable pub fail_run : String → Action (Unit {0})
unfolding cancel_siblings_if_parallel set_run_error
fail_run code = do set_run_error code; cancel_siblings_if_parallel; transition whole_run failed

unfoldable pub fail_given_attempt : String → Option ℕ → Action (Unit {0})
unfolding set_classification set_attempt_error move_attempt
fail_given_attempt code none = pure tt
fail_given_attempt code (some a) = do
  set_classification a permanent
  set_attempt_error a code
  move_attempt a failed

unfoldable pub fail_given_step : String → Option ℕ → Action (Unit {0})
unfolding set_step_error move_step
fail_given_step code none = pure tt
fail_given_step code (some i) = do set_step_error i (some code); move_step i failed

-- The loop over [attempt, step, run] that skips what is None: the siblings are cancelled before the
-- error of the execution is written.
unfoldable pub fail_execution : String → Option ℕ → Option ℕ → Action (Unit {0})
unfolding fail_given_attempt fail_given_step cancel_siblings_if_parallel set_run_error
fail_execution code step attempt = do
  fail_given_attempt code attempt
  fail_given_step code step
  cancel_siblings_if_parallel
  set_run_error code
  transition whole_run failed

abbrev pub lift : {A : Type 0} → Result A → Action A
lift (ok a) = pure a
lift (err e) = raise e

-- The step waits for its next attempt, or fails with the execution.
unfoldable pub settle_step : ℕ → String → Option ℕ → Action (Unit {0})
unfolding move_step fail_run
settle_step i code none = do move_step i failed; fail_run code
settle_step i code (some due) = move_step i retrying

module _ (fl : FloatOps) where
  -- `error` is the code of the typed failure with its `retry_not_before`.
  unfoldable pub fail_attempt :
      StepRun → StepAttempt → String → Option ℕ → Float → Action (Unit {0})
  unfolding pinned_node set_classification set_attempt_error move_attempt set_step_error
      set_step_next settle_step
  fail_attempt step attempt code retry_not_before sample = do
    node ← pinned_node step.node_id
    now ← gets (λ w. w.now)
    deadline ← gets (λ w. w.run.deadline_at)
    decision ← lift (
        retry_decision fl node.retry attempt.number code now deadline sample false retry_not_before)
    set_classification attempt.id decision.classification
    set_attempt_error attempt.id code
    move_attempt attempt.id failed
    set_step_error step.id (some decision.code)
    set_step_next step.id decision.due
    settle_step step.id decision.code decision.due
