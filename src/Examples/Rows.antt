-- ===== src/Examples/Rows.antt =====
-- An execution whose worker has died: its step and attempt run, and the lease of its job is over.
use agentops_workflow_platfo.Base.{false, none, some, [], ◌∷◌, arith}
use mathlib.Core.Bool.{false≢true}
use agentops_workflow_platfo.Base.Tables.{find}
use agentops_workflow_platfo.Permissions.{Principal}
use agentops_workflow_platfo.Engine.Status.{running}
use agentops_workflow_platfo.Engine.World.{
  WorkflowExecution, StepRun, StepAttempt, DurableJob, JobStatus, RetryPolicy, Node, other_config,
  World,
}
use agentops_workflow_platfo.Data.Schema.{DataSchema, schema, object_type, no_properties, no_items}
use agentops_workflow_platfo.Engine.Jobs.{Claim}
use agentops_workflow_platfo.Engine.Invariant.{Inv}

abbrev pub policy : RetryPolicy
policy = record {
  max_attempts = 3;
  retryable_errors = "provider_timeout" ∷ [];
  initial_delay_seconds = 2;
  max_delay_seconds = 60;
  backoff_factor = 2;
  jitter_fraction = 0;
}

abbrev pub any_object : DataSchema
any_object = schema (object_type ∷ []) no_properties [] no_items

abbrev pub draft : Node
draft = record {
  id = "draft";
  type = "code";
  config = other_config;
  inputs = [];
  input_schema = any_object;
  output_schema = any_object;
  exclusive_merge = false;
  retry = policy;
  timeout_seconds = 30;
}

abbrev run : WorkflowExecution
run = record {
  id = 1;
  organization_id = 7;
  status = running;
  state_revision = 4;
  parallel_mode = false;
  deadline_at = some 5000;
  cancel_requested = false;
  cancel_requested_at = none;
  cancel_requested_by_user_id = none;
  cancel_reason = none;
  error_code = none;
  started_at = some 900;
  completed_at = none;
}

abbrev pub step : StepRun
step = record {
  id = 2;
  execution_id = 1;
  node_id = "draft";
  step_type = "code";
  branch = "";
  iteration = 0;
  status = running;
  error_code = none;
  next_attempt_at = none;
  waiting_reason = none;
  wake_at = none;
  started_at = some 910;
  completed_at = none;
}

abbrev attempt : StepAttempt
attempt = record {
  id = 3;
  step_run_id = 2;
  number = 1;
  status = running;
  error_code = none;
  error_classification = none;
  deadline_at = some 1500;
  started_at = some 910;
  completed_at = none;
}

abbrev job : DurableJob
job = record {
  id = 4;
  organization_id = 7;
  execution_id = 1;
  sequence = 0;
  node_id = some "draft";
  iteration = 0;
  branch = "";
  status = JobStatus.running;
  attempt_id = some 3;
  claim_token = some 99;
  worker_id = some "worker-1";
  due_at = 900;
  claimed_at = some 905;
  dispatched_at = some 910;
  completed_at = none;
  error_code = none;
  lease_expires_at = some 960;
  heartbeat_at = some 930;
  recovery_count = 0;
}

abbrev pub world : World
world = record {
  run = run;
  version = some (record {
    entry_node = "draft";
    input_schema = any_object;
    output_schema = any_object;
    outputs = [];
    quality_revision = none;
    nodes = draft ∷ [];
    edges = [];
  });
  steps = step ∷ [];
  attempts = attempt ∷ [];
  approvals = [];
  jobs = job ∷ [];
  events = [];
  tenant = 7;
  now = 1000;
  next_uuid = 5;
}

abbrev pub dead_claim : Claim
dead_claim = record { id = 4; organization_id = 7; execution_id = 1; sequence = 0; token = 99 }

abbrev pub operator : Principal
operator = record {
  role = "operator";
  user_id = some 11;
  organization_id = some 7;
  service_principal_id = none;
  scopes = [];
}

pub world-Inv : Inv world
unfolding find
world-Inv = record {
  children_ended = λ h. absurd (false≢true h);
  children_succeeded = λ h. absurd (ground (arith, h));
  attempts_ended = λ i f h. ground (arith, f, h);
}
