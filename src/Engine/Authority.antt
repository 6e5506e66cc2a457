-- ===== src/Engine/Authority.antt =====
-- `transition_execution_entity` of services/workflow_state.py: the one authority over the statuses
-- of executions, steps and attempts.
use agentops_workflow_platfo.Base.{
  ℕ, Bool, true, false, not, ◌&&◌, ◌||◌, Option, none, some, [], ◌∷◌, ◌++◌, any, ◌==◌,
  if◌then◌else◌,
}
use agentops_workflow_platfo.Base.Tables.{put}
use agentops_workflow_platfo.Engine.Status.{
  Status, running, waiting, retrying, completed, skipped, same, terminal, among,
  generic_transitions,
}
use agentops_workflow_platfo.Engine.World.{
  WorkflowExecution, StepRun, StepAttempt, ExecutionEvent, Change, World, step_key, attempt_key,
  find_step, find_attempt, execution_change, step_change, attempt_change,
}
use agentops_workflow_platfo.Engine.Action.{value_error, Action, ok, err}

-- The object handed to the authority: its row, and the status that the session has read of it.
pub data Entity : Type 0 where
  whole_run : Entity
  of_step : ℕ → Status → Entity
  of_attempt : ℕ → Status → Entity

abbrev pub the_step : StepRun → Entity
the_step s = of_step s.id s.status

abbrev pub the_attempt : StepAttempt → Entity
the_attempt a = of_attempt a.id a.status

abbrev pub entity_status : World → Entity → Status
entity_status w whole_run = w.run.status
entity_status w (of_step i seen) = seen
entity_status w (of_attempt i seen) = seen

abbrev pub status_at : Option StepRun → Option Status
status_at none = none
status_at (some s) = some s.status

abbrev attempt_status_at : Option StepAttempt → Option Status
attempt_status_at none = none
attempt_status_at (some a) = some a.status

abbrev pub is_status : Option Status → Status → Bool
is_status none s = false
is_status (some t) s = same t s

-- current = db.scalar(select(type(entity).status).where(type(entity).id == entity.id))
abbrev pub current_status : World → Entity → Option Status
current_status w whole_run = some w.run.status
current_status w (of_step i _) = status_at (find_step w i)
current_status w (of_attempt i _) = attempt_status_at (find_attempt w i)

abbrev pub is_child : ℕ → StepRun → Bool
is_child run s = s.execution_id == run

abbrev owner_is_run : World → Option StepRun → Bool
owner_is_run w none = false
owner_is_run w (some s) = is_child w.run.id s

abbrev step_of_attempt : World → Option StepAttempt → Option StepRun
step_of_attempt w none = none
step_of_attempt w (some a) = find_step w a.step_run_id

abbrev pub owned : World → Entity → Bool
owned w whole_run = true
owned w (of_step i _) = owner_is_run w (find_step w i)
owned w (of_attempt i _) = owner_is_run w (step_of_attempt w (find_attempt w i))

abbrev pub is_active : ℕ → StepAttempt → Bool
is_active i a = a.step_run_id == i && not (among a.status terminal)

-- An attempt of the step has not ended.
abbrev pub has_active : World → ℕ → Bool
has_active w i = any (is_active i) w.attempts

abbrev pub is_live_child : ℕ → StepRun → Bool
is_live_child run s = is_child run s && not (among s.status terminal)

abbrev pub is_unsuccessful_child : ℕ → StepRun → Bool
is_unsuccessful_child run s = is_child run s && not (among s.status (completed ∷ skipped ∷ []))

-- What the kind of the entity forbids of the new status.
unfoldable pub kind_forbids : World → Entity → Status → Bool
kind_forbids w whole_run new =
    same new skipped
    || (among new terminal && any (is_live_child w.run.id) w.steps)
    || (same new completed
        && (not (any (is_child w.run.id) w.steps) || any (is_unsuccessful_child w.run.id) w.steps))
kind_forbids w (of_step i _) new =
    among w.run.status terminal
    || (same new running && not (same w.run.status running))
    || (among new (retrying ∷ waiting ∷ terminal) && has_active w i)
kind_forbids w (of_attempt i _) new =
    among new (waiting ∷ retrying ∷ skipped ∷ [])
    || among w.run.status terminal
    || (same new running && not (same w.run.status running))
    || (same new running
        && not (is_status (status_at (step_of_attempt w (find_attempt w i))) running))

-- The tests of the authority, all of which raise `ValueError`.
unfoldable pub transition_forbidden : World → Entity → Status → Bool
transition_forbidden w e new =
    not (owned w e)
    || not (is_status (current_status w e) (entity_status w e))
    || not (among new (generic_transitions (entity_status w e)))
    || kind_forbids w e new

abbrev pub or_now : Option ℕ → ℕ → Option ℕ
or_now none now = some now
or_now (some t) now = some t

abbrev pub started : Status → Option ℕ → ℕ → Option ℕ
started new t now = if same new running then or_now t now else t

abbrev pub ended : Status → Option ℕ → ℕ → Option ℕ
ended new t now = if among new terminal then some now else t

abbrev pub moved_run : WorkflowExecution → Status → ℕ → WorkflowExecution
moved_run r new now = record r {
  status = new;
  started_at = started new r.started_at now;
  completed_at = ended new r.completed_at now;
}

abbrev pub moved_step : StepRun → Status → ℕ → StepRun
moved_step s new now = record s {
  status = new;
  started_at = started new s.started_at now;
  completed_at = ended new s.completed_at now;
}

abbrev pub moved_attempt : StepAttempt → Status → ℕ → StepAttempt
moved_attempt a new now = record a {
  status = new;
  started_at = started new a.started_at now;
  completed_at = ended new a.completed_at now;
}

abbrev pub event : ℕ → ℕ → Change → ExecutionEvent
event run entity change = record { execution_id = run; entity_id = entity; change = change }

abbrev pub moved_step_in : World → Status → Option StepRun → World
moved_step_in w new none = w
moved_step_in w new (some s) = record w {
  steps = put step_key (moved_step s new w.now) w.steps;
  events = w.events ++ event w.run.id s.id (step_change (some s.status) new) ∷ [];
}

abbrev pub moved_attempt_in : World → Status → Option StepAttempt → World
moved_attempt_in w new none = w
moved_attempt_in w new (some a) = record w {
  attempts = put attempt_key (moved_attempt a new w.now) w.attempts;
  events = w.events ++ event w.run.id a.id (attempt_change (some a.status) new) ∷ [];
}

-- The row with its new status, and the event that records it.
unfoldable pub moved : World → Entity → Status → World
moved w whole_run new = record w {
  run = moved_run w.run new w.now;
  events = w.events ++ event w.run.id w.run.id (execution_change (some w.run.status) new) ∷ [];
}
moved w (of_step i _) new = moved_step_in w new (find_step w i)
moved w (of_attempt i _) new = moved_attempt_in w new (find_attempt w i)

unfoldable pub transition : Entity → Status → Action (Unit {0})
unfolding transition_forbidden kind_forbids moved
transition e new w =
    if transition_forbidden w e new
    then (err (value_error "transition"), w)
    else (ok tt, moved w e new)
