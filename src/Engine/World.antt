-- ===== src/Engine/World.antt =====
-- The rows that one locked execution reads and writes, and the code that may raise over them.
-- models/workflow_execution.py, models/durable_job.py, models/execution_approval.py and the graph
-- of schemas/workflow_graph.py as far as the engine reads it. Texts of messages are left out.
use agentops_workflow_platfo.Base.{ℕ, String, Bool, Option, List}
use agentops_workflow_platfo.Base.Float.{Float}
use agentops_workflow_platfo.Base.Tables.{find}
use agentops_workflow_platfo.Data.Schema.{DataSchema}
use agentops_workflow_platfo.Data.Expression.{Expression}
use agentops_workflow_platfo.Engine.Status.{Status}

pub record WorkflowExecution : Type 0 where
  pub id : ℕ
  pub organization_id : ℕ
  pub status : Status
  pub state_revision : ℕ
  pub parallel_mode : Bool  -- checkpoint_json["parallel_mode"]
  pub deadline_at : Option ℕ
  pub cancel_requested : Bool
  pub cancel_requested_at : Option ℕ
  pub cancel_requested_by_user_id : Option ℕ
  pub cancel_reason : Option String
  pub error_code : Option String
  pub started_at : Option ℕ
  pub completed_at : Option ℕ

pub record StepRun : Type 0 where
  pub id : ℕ
  pub execution_id : ℕ
  pub node_id : String
  pub step_type : String
  pub branch : String
  pub iteration : ℕ
  pub status : Status
  pub error_code : Option String
  pub next_attempt_at : Option ℕ
  pub waiting_reason : Option String
  pub wake_at : Option ℕ
  pub started_at : Option ℕ
  pub completed_at : Option ℕ

pub data Classification : Type 0 where
  retryable permanent : Classification

pub record StepAttempt : Type 0 where
  pub id : ℕ
  pub step_run_id : ℕ
  pub number : ℕ
  pub status : Status
  pub error_code : Option String
  pub error_classification : Option Classification
  pub deadline_at : Option ℕ
  pub started_at : Option ℕ
  pub completed_at : Option ℕ

pub data ApprovalStatus : Type 0 where
  pending approved rejected retry_requested superseded invalidated cancelled expired :
      ApprovalStatus

pub record ExecutionApproval : Type 0 where
  pub id : ℕ
  pub execution_id : ℕ
  pub step_run_id : ℕ
  pub status : ApprovalStatus
  pub expires_at : Option ℕ
  pub resolved_at : Option ℕ
  pub decided_by_user_id : Option ℕ
  pub human_feedback : Option String
  pub request_hash : Option String

pub data JobStatus : Type 0 where
  queued running completed failed cancelled : JobStatus

pub record DurableJob : Type 0 where
  pub id : ℕ
  pub organization_id : ℕ
  pub execution_id : ℕ
  pub sequence : ℕ
  pub node_id : Option String
  pub iteration : ℕ
  pub branch : String
  pub status : JobStatus
  pub attempt_id : Option ℕ
  pub claim_token : Option ℕ
  pub worker_id : Option String
  pub due_at : ℕ
  pub claimed_at : Option ℕ
  pub dispatched_at : Option ℕ
  pub completed_at : Option ℕ
  pub error_code : Option String
  pub lease_expires_at : Option ℕ
  pub heartbeat_at : Option ℕ
  pub recovery_count : ℕ

-- The statuses of an event are those of the table that it is about.
pub data Change : Type 0 where
  execution_change : Option Status → Status → Change
  step_change : Option Status → Status → Change
  attempt_change : Option Status → Status → Change
  job_change : Option JobStatus → JobStatus → Change
  approval_change : Option ApprovalStatus → ApprovalStatus → Change

pub record ExecutionEvent : Type 0 where
  pub execution_id : ℕ
  pub entity_id : ℕ
  pub change : Change

pub record RetryPolicy : Type 0 where
  pub max_attempts : ℕ
  pub retryable_errors : List String
  pub initial_delay_seconds : Float
  pub max_delay_seconds : Float
  pub backoff_factor : Float
  pub jitter_fraction : Float

pub record ConditionCase : Type 0 where
  pub label : String
  pub condition : Expression  -- `when`

pub record ParallelBranch : Type 0 where
  pub name : String
  pub entry_node : String

-- The configs that decide the routes; `fork_join_shape` makes a parallel config one of two.
pub data Config : Type 0 where
  condition_config : List ConditionCase → String → Config
  fork_config : List ParallelBranch → String → Config
  join_config : String → Config
  transform_config : List (String × Expression) → Config
  other_config : Config

-- The node types of the discriminated union; `type` says which, and `config` is that type's.
pub record Node : Type 0 where
  pub id : String
  pub type : String
  pub config : Config
  pub inputs : List (String × Expression)
  pub input_schema : DataSchema
  pub output_schema : DataSchema
  pub exclusive_merge : Bool  -- merge == "exclusive"
  pub retry : RetryPolicy
  pub timeout_seconds : Float

pub record Edge : Type 0 where
  pub source : String
  pub target : String
  pub label : Option String

pub record QualityRevisionPolicy : Type 0 where
  pub entry_node : String
  pub review_node : String
  pub nodes : List String
  pub max_revisions : ℕ

pub record WorkflowGraph : Type 0 where
  pub entry_node : String
  pub input_schema : DataSchema
  pub output_schema : DataSchema
  pub outputs : List (String × Expression)
  pub quality_revision : Option QualityRevisionPolicy
  pub nodes : List Node
  pub edges : List Edge

-- `run` is the execution that the transaction has locked, `version` its pinned graph, `tenant` the
-- organization of the session, `now` the database clock, `next_uuid` what `uuid4` gives next.
pub record World : Type 0 where
  pub run : WorkflowExecution
  pub version : Option WorkflowGraph
  pub steps : List StepRun
  pub attempts : List StepAttempt
  pub approvals : List ExecutionApproval
  pub jobs : List DurableJob
  pub events : List ExecutionEvent
  pub tenant : ℕ
  pub now : ℕ
  pub next_uuid : ℕ

abbrev pub step_key : StepRun → ℕ
step_key s = s.id

abbrev pub attempt_key : StepAttempt → ℕ
attempt_key a = a.id

abbrev pub approval_key : ExecutionApproval → ℕ
approval_key a = a.id

abbrev pub job_key : DurableJob → ℕ
job_key j = j.id

abbrev pub find_step : World → ℕ → Option StepRun
find_step w i = find step_key i w.steps

abbrev pub find_attempt : World → ℕ → Option StepAttempt
find_attempt w i = find attempt_key i w.attempts

abbrev pub find_job : World → ℕ → Option DurableJob
find_job w i = find job_key i w.jobs
