-- ===== src/Legacy/Steps.antt =====
-- `transition_step` of services/workflow_state.py, on the agent steps of models/agent_step.py.
use agentops_workflow_platfo.Base.{
  ℕ, ◌<◌, ◌≡◌, Bool, true, false, not, Option, some, List, [], ◌∷◌, any, arith, if◌then◌else◌,
  is_some,
}

pub data AgentStepStatus : Type 0 where
  pending running completed failed : AgentStepStatus

abbrev pub same : AgentStepStatus → AgentStepStatus → Bool
same pending pending = true
same running running = true
same completed completed = true
same failed failed = true
same _ _ = false

abbrev pub allowed : AgentStepStatus → List AgentStepStatus
allowed pending = running ∷ failed ∷ []
allowed running = completed ∷ failed ∷ []
allowed _ = []

abbrev pub ended : AgentStepStatus → Bool
ended new = any (same new) (completed ∷ failed ∷ [])

pub record AgentStep : Type 0 where
  pub status : AgentStepStatus
  pub completed_at : Option ℕ

-- `none` is the ValueError.
unfoldable pub transition_step : AgentStep → AgentStepStatus → ℕ → Option AgentStep
transition_step step new now =
    if not (any (same new) (allowed step.status))
    then Option.none
    else some (record step {
      status = new;
      completed_at = if ended new then some now else step.completed_at;
    })

-- The number of moves that a step has left.
abbrev pub moves_left : AgentStepStatus → ℕ
moves_left pending = 2
moves_left running = 1
moves_left _ = 0

-- A move that is carried out gives the status asked for, leaves fewer moves, and keeps that exactly
-- the ended steps have a time of completion.
pub transition_step_lem :
    (step u : AgentStep) (new : AgentStepStatus) (now : ℕ)
    → is_some step.completed_at ≡ ended step.status
    → transition_step step new now ≡ some u
    → (u.status ≡ new)
      × (moves_left u.status < moves_left step.status)
      × (is_some u.completed_at ≡ ended u.status)
unfolding transition_step
transition_step_lem step u new now timed h = ground arith
