-- ===== src/Examples/Runs.antt =====
-- The theorems on the first engine's runs and on permissions, applied.
use agentops_workflow_platfo.Base.{
  ℕ, ◌≡◌, refl, true, false, ◌||◌, none, some, List, [], ◌∷◌, any, is_some, ◌<◌,
}
use agentops_workflow_platfo.Base.Text.{codes}
use agentops_workflow_platfo.Permissions.{Principal, listed, permits}
use agentops_workflow_platfo.Permissions.Requests.{request_action, is, second_part}
use agentops_workflow_platfo.Permissions.Rules.{
  known, validates, request_action-known, request_action-viewer,
}
use agentops_workflow_platfo.Legacy.{
  created, running, reviewer_running, writer_running, analyst_running, same, WorkflowRun, Db, ok,
  err, stale_workflow, transition,
}
use agentops_workflow_platfo.Legacy.Steps.{
  AgentStepStatus, AgentStep, transition_step, transition_step_lem, moves_left, ended,
}
use agentops_workflow_platfo.Legacy.Log.{
  follow, Logged, transition-Logged, transition-stale_workflow, Logged-reviewed,
}

abbrev fresh : WorkflowRun
fresh = record { id = 1; status = created; state_revision = 1; completed_at = none }

abbrev db : Db
db = record { run = fresh; events = []; controlled = false; now = 50 }

db-Logged : Logged db
unfolding follow
db-Logged = record { logged = refl; timed = refl }

abbrev started : Db
started = (transition fresh running db).1

transition-Logged_example : Logged (transition fresh running db).1
transition-Logged_example = transition-Logged fresh running db db-Logged

has_started :
    transition fresh running db
    ≡ (ok (record fresh { status = running; state_revision = 2 }), started)
unfolding transition
has_started = refl

transition-stale_workflow_example : transition fresh running started ≡ (err stale_workflow, started)
transition-stale_workflow_example =
    transition-stale_workflow fresh (record fresh { status = running; state_revision = 2 }) running
      running db started has_started

abbrev written : Db
written = record {
  run = record { id = 1; status = writer_running; state_revision = 5; completed_at = none };
  events =
      record { from_status = created; to_status = running }
      ∷ record { from_status = running; to_status = analyst_running }
      ∷ record { from_status = analyst_running; to_status = reviewer_running }
      ∷ record { from_status = reviewer_running; to_status = writer_running }
      ∷ [];
  controlled = false;
  now = 90;
}

written-Logged : Logged written
unfolding follow
written-Logged = record { logged = refl; timed = refl }

Logged-reviewed_example : any (λ e. same e.to_status reviewer_running) written.events ≡ true
Logged-reviewed_example = Logged-reviewed written written-Logged refl

abbrev first_step : AgentStep
first_step = record { status = AgentStepStatus.pending; completed_at = none }

abbrev failed_step : AgentStep
failed_step = record { status = AgentStepStatus.failed; completed_at = some 60 }

step_fails : transition_step first_step AgentStepStatus.failed 60 ≡ some failed_step
unfolding transition_step
step_fails = refl

transition_step_lem_example :
    (failed_step.status ≡ AgentStepStatus.failed)
    × (moves_left failed_step.status < moves_left first_step.status)
    × (is_some failed_step.completed_at ≡ ended failed_step.status)
transition_step_lem_example =
    transition_step_lem first_step failed_step AgentStepStatus.failed 60 refl step_fails

abbrev viewer : Principal
viewer = record {
  role = "viewer";
  user_id = some 12;
  organization_id = some 7;
  service_principal_id = none;
  scopes = [];
}

abbrev validate_path : List ℕ
validate_path = codes "/workflow-definitions/8/validate"

abbrev definitions_prefix : List ℕ
definitions_prefix = codes "workflow-definitions"

needs_read : request_action (codes "POST") validate_path ≡ some "read"
unfolding request_action
needs_read = refl

has_prefix : second_part validate_path ≡ some definitions_prefix
unfolding second_part
has_prefix = refl

may_read : permits viewer "read" ≡ true
unfolding permits listed
may_read = refl

request_action-known_example : known "read" ≡ true
request_action-known_example = request_action-known (codes "POST") validate_path "read" needs_read

request_action-viewer_example :
    (is (codes "POST") "GET"
      || is (codes "POST") "HEAD"
      || validates validate_path definitions_prefix)
    ≡ true
request_action-viewer_example =
    request_action-viewer viewer (codes "POST") validate_path definitions_prefix "read" refl
      has_prefix needs_read may_read
