-- ===== src/Engine/Status.antt =====
-- Statuses of executions, steps and attempts (models/workflow_execution.py), and the table of
-- generic transitions (services/workflow_state.py).
use agentops_workflow_platfo.Base.{◌≡◌, Bool, true, false, List, [], ◌∷◌, any, arith}

pub data Status : Type 0 where
  pending running waiting retrying completed failed cancelled skipped : Status

abbrev pub same : Status → Status → Bool
same pending pending = true
same running running = true
same waiting waiting = true
same retrying retrying = true
same completed completed = true
same failed failed = true
same cancelled cancelled = true
same skipped skipped = true
same _ _ = false

-- TERMINAL
abbrev pub terminal : List Status
terminal = completed ∷ failed ∷ cancelled ∷ skipped ∷ []

abbrev pub generic_transitions : Status → List Status
generic_transitions pending = running ∷ failed ∷ cancelled ∷ skipped ∷ []
generic_transitions running = waiting ∷ retrying ∷ completed ∷ failed ∷ cancelled ∷ []
generic_transitions waiting = running ∷ completed ∷ failed ∷ cancelled ∷ []
generic_transitions retrying = running ∷ failed ∷ cancelled ∷ []
generic_transitions _ = []

-- `status in states`
abbrev pub among : Status → List Status → Bool
among s = any (same s)

pub same→eq : (a b : Status) → same a b ≡ true → a ≡ b
same→eq a b h = ground arith

-- Nothing moves from a terminal status.
pub allowed_live :
    (old new : Status) → among new (generic_transitions old) ≡ true → among old terminal ≡ false
allowed_live old new h = ground arith
