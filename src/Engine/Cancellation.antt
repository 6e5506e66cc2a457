-- ===== src/Engine/Cancellation.antt =====
-- `cancel_execution` of services/execution_cancellation.py. The audit row is left out.
use agentops_workflow_platfo.Base.{ℕ, String, true, not, Option, none, some, if◌then◌else◌}
use agentops_workflow_platfo.Permissions.{Principal, permits}
use agentops_workflow_platfo.Engine.Status.{cancelled, terminal, among}
use agentops_workflow_platfo.Engine.World.{ApprovalStatus, JobStatus, World}
use agentops_workflow_platfo.Engine.Action.{
  http_exception, Action, pure, gets, modify, raise_if, for_each, ◌>>=◌, ◌>>◌,
}
use agentops_workflow_platfo.Engine.Authority.{whole_run, transition}
use agentops_workflow_platfo.Engine.Transaction.{transaction}
use agentops_workflow_platfo.Engine.Jobs.{close_live_jobs}
use agentops_workflow_platfo.Engine.Endings.{live_steps, close_pending, cancel_step, set_run_error}

abbrev pub request_cancel : Option ℕ → Option String → World → World
request_cancel user reason w = record w {
  run = record w.run {
    cancel_requested = true;
    cancel_requested_at = some w.now;
    cancel_requested_by_user_id = user;
    cancel_reason = reason;
  };
}

unfoldable pub stop_all_work : Option ℕ → Option String → Action (Unit {0})
unfolding close_pending cancel_step set_run_error
stop_all_work user reason = do
  close_pending ApprovalStatus.cancelled
  modify (request_cancel user reason)
  rows ← gets live_steps
  for_each rows (cancel_step "cancelled")
  modify (close_live_jobs JobStatus.cancelled (some "cancelled"))
  set_run_error "cancelled"
  transition whole_run cancelled

abbrev pub unless_ended : Action (Unit {0}) → Action (Unit {0})
unless_ended m = do
  run ← gets (λ w. w.run)
  if among run.status terminal then pure tt else transaction none m

-- An execution that has ended is returned as it is.
unfoldable pub cancel_execution : Principal → Option String → Action (Unit {0})
unfolding stop_all_work transaction
cancel_execution principal reason = do
  raise_if (not (permits principal "workflow.control")) (http_exception 403)
  unless_ended (stop_all_work principal.user_id reason)
