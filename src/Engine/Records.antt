-- ===== src/Engine/Records.antt =====
-- services/execution_records.py: the pinned node, and new steps and attempts. The lineage of a
-- recovered execution (`recovered_from_id`) and the hash of the idempotency key are left out.
use Prim.Native.String.{count}
use Prim.Native.Nat.{min}
use agentops_workflow_platfo.Base.{
  ℕ, suc, max, String, str_eq, Bool, not, ◌&&◌, ◌||◌, Option, none, some, List, [], ◌∷◌, ◌++◌, any,
  ◌==◌, ltb, if◌then◌else◌,
}
use agentops_workflow_platfo.Base.Int.{later}
use agentops_workflow_platfo.Base.Float.{FloatOps}
use agentops_workflow_platfo.Engine.Status.{pending, running, retrying, among}
use agentops_workflow_platfo.Engine.World.{
  StepRun, StepAttempt, Node, WorkflowGraph, World, find_step, step_change, attempt_change,
}
use agentops_workflow_platfo.Engine.Authority.{event}
use agentops_workflow_platfo.Engine.Action.{
  value_error, integrity_error, Action, pure, raise, gets, modify, raise_if, ◌>>=◌, ◌>>◌,
}

abbrev pub find_node : String → List Node → Option Node
find_node i [] = none
find_node i (n ∷ ns) = if str_eq n.id i then some n else find_node i ns

abbrev node_of : Option WorkflowGraph → String → Option Node
node_of none i = none
node_of (some g) i = find_node i g.nodes

abbrev pub or_raise : {A : Type 0} → Option A → String → Action A
or_raise none message = raise (value_error message)
or_raise (some a) message = pure a

unfoldable pub pinned_node : String → Action Node
pinned_node i = do
  found ← gets (λ w. node_of w.version i)
  or_raise found "Node is absent from the pinned workflow version"

abbrev pub new_step : World → Node → String → ℕ → StepRun
new_step w node branch iteration = record {
  id = w.next_uuid;
  execution_id = w.run.id;
  node_id = node.id;
  step_type = node.type;
  branch = branch;
  iteration = iteration;
  status = pending;
  error_code = none;
  next_attempt_at = none;
  waiting_reason = none;
  wake_at = none;
  started_at = none;
  completed_at = none;
}

abbrev pub insert_step : StepRun → World → World
insert_step s w = record w {
  steps = w.steps ++ s ∷ [];
  next_uuid = suc w.next_uuid;
  events = w.events ++ event w.run.id s.id (step_change none pending) ∷ [];
}

-- UniqueConstraint("execution_id", "node_id", "branch", "iteration", name="uq_logical_step")
abbrev pub same_logical_step : StepRun → StepRun → Bool
same_logical_step s t =
    s.execution_id == t.execution_id
    && str_eq s.node_id t.node_id
    && str_eq s.branch t.branch
    && s.iteration == t.iteration

-- `not branch or len(branch) > 256`; an iteration is a nonnegative integer by its type.
abbrev invalid_branch : String → Bool
invalid_branch branch = count branch == 0 || ltb 256 (count branch)

unfoldable pub add_step : String → String → ℕ → Action StepRun
unfolding pinned_node
add_step node_id branch iteration = do
  run ← gets (λ w. w.run)
  raise_if (not (among run.status (pending ∷ running ∷ [])))
      (value_error "Execution cannot add a step in its current state")
  raise_if (invalid_branch branch) (value_error "Invalid branch/iteration identity")
  node ← pinned_node node_id
  step ← gets (λ w. new_step w node branch iteration)
  taken ← gets (λ w. any (same_logical_step step) w.steps)
  raise_if taken integrity_error
  modify (insert_step step)
  pure step

abbrev pub is_open_attempt : ℕ → StepAttempt → Bool
is_open_attempt i a = a.step_run_id == i && among a.status (pending ∷ running ∷ [])

-- func.max(StepAttempt.number) or 0
abbrev pub max_number : ℕ → List StepAttempt → ℕ
max_number i [] = 0
max_number i (a ∷ rest) =
    if a.step_run_id == i then max a.number (max_number i rest) else max_number i rest

abbrev pub min_deadline : ℕ → Option ℕ → ℕ
min_deadline d none = d
min_deadline d (some e) = min d e

abbrev pub new_attempt : World → StepRun → ℕ → ℕ → StepAttempt
new_attempt w step number deadline = record {
  id = w.next_uuid;
  step_run_id = step.id;
  number = number;
  status = pending;
  error_code = none;
  error_classification = none;
  deadline_at = some deadline;
  started_at = none;
  completed_at = none;
}

abbrev pub insert_attempt : StepAttempt → World → World
insert_attempt a w = record w {
  attempts = w.attempts ++ a ∷ [];
  next_uuid = suc w.next_uuid;
  events = w.events ++ event w.run.id a.id (attempt_change none pending) ∷ [];
}

abbrev pub reload_step : ℕ → Action StepRun
reload_step i = do found ← gets (λ w. find_step w i); or_raise found "Could not refresh instance"

abbrev pub not_ready : World → StepRun → Bool
not_ready w step =
    not (step.execution_id == w.run.id)
    || not (among w.run.status (running ∷ []))
    || not (among step.status (pending ∷ retrying ∷ []))

module _ (fl : FloatOps) where
  unfoldable pub add_attempt : ℕ → Action StepAttempt
  unfolding pinned_node
  add_attempt step_id = do
    step ← reload_step step_id
    unready ← gets (λ w. not_ready w step)
    raise_if unready (value_error "Step is not ready for a new attempt")
    active ← gets (λ w. any (is_open_attempt step_id) w.attempts)
    raise_if active (value_error "A step already has an active attempt")
    number ← gets (λ w. suc (max_number step_id w.attempts))
    node ← pinned_node step.node_id
    raise_if (ltb node.retry.max_attempts number) (value_error "Step attempt limit reached")
    attempt ← gets (λ w.
        new_attempt w step number
          (min_deadline (later w.now (fl.timedelta node.timeout_seconds)) w.run.deadline_at))
    modify (insert_attempt attempt)
    pure attempt
