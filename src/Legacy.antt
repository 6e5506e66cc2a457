-- ===== src/Legacy.antt =====
-- Runs of the first engine: services/workflow_state.py with models/workflow_run.py and
-- models/agent_step.py. A caller holds a copy of the row, and `workflow_transaction` of
-- services/workflow_transactions.py compares it with the row under the lock.
pub mod Steps
pub mod Log
use agentops_workflow_platfo.Base.{
  ℕ, suc, Bool, true, false, not, ◌||◌, Option, none, some, List, [], ◌∷◌, ◌++◌, any, ◌==◌,
  if◌then◌else◌,
}

pub data WorkflowStatus : Type 0 where
  created running routing analyst_running reviewer_running retrying waiting_for_human writer_running
        completed failed cancelled :
      WorkflowStatus

abbrev pub same : WorkflowStatus → WorkflowStatus → Bool
same created created = true
same running running = true
same routing routing = true
same analyst_running analyst_running = true
same reviewer_running reviewer_running = true
same retrying retrying = true
same waiting_for_human waiting_for_human = true
same writer_running writer_running = true
same completed completed = true
same failed failed = true
same cancelled cancelled = true
same _ _ = false

abbrev pub among : WorkflowStatus → List WorkflowStatus → Bool
among s = any (same s)

-- VALID_TRANSITIONS
abbrev pub valid_transitions : WorkflowStatus → List WorkflowStatus
valid_transitions created = running ∷ cancelled ∷ []
valid_transitions running = routing ∷ analyst_running ∷ completed ∷ failed ∷ cancelled ∷ []
valid_transitions routing = analyst_running ∷ failed ∷ cancelled ∷ []
valid_transitions analyst_running = reviewer_running ∷ retrying ∷ failed ∷ cancelled ∷ []
valid_transitions reviewer_running =
    waiting_for_human ∷ writer_running ∷ retrying ∷ failed ∷ cancelled ∷ []
valid_transitions retrying = analyst_running ∷ failed ∷ cancelled ∷ []
valid_transitions waiting_for_human = writer_running ∷ analyst_running ∷ retrying ∷ cancelled ∷ []
valid_transitions writer_running = completed ∷ failed ∷ cancelled ∷ []
valid_transitions _ = []

-- _TERMINAL
abbrev pub terminal : List WorkflowStatus
terminal = completed ∷ failed ∷ cancelled ∷ []

pub record WorkflowRun : Type 0 where
  pub id : ℕ
  pub status : WorkflowStatus
  pub state_revision : ℕ
  pub completed_at : Option ℕ

-- A `state_transition` event: from one status to another.
pub record WorkflowEvent : Type 0 where
  pub from_status : WorkflowStatus
  pub to_status : WorkflowStatus

-- `controlled` says that `execution_for` finds an execution of the durable engine for the run.
pub record Db : Type 0 where
  pub run : WorkflowRun
  pub events : List WorkflowEvent
  pub controlled : Bool
  pub now : ℕ

pub data Error : Type 0 where
  http_409 : Error
  stale_workflow : Error
  invalid_transition : WorkflowStatus → WorkflowStatus → Error

pub data Result : Type 0 where
  ok : WorkflowRun → Result
  err : Error → Result

-- What `workflow_transaction` refuses before its body runs, for the caller's copy `held`.
unfoldable pub refused : WorkflowRun → Db → Option Error
refused held db =
    if db.controlled
    then some http_409
    else if not (db.run.state_revision == held.state_revision)
    then some stale_workflow
    else if not (same db.run.status held.status)
    then some stale_workflow
    else none

abbrev pub finished : WorkflowStatus → ℕ → Option ℕ → Option ℕ
finished new now before = if among new terminal then some now else before

-- The row after the commit: the changed columns, and the revision that the transaction adds.
abbrev pub moved : WorkflowRun → WorkflowRun → WorkflowStatus → ℕ → WorkflowRun
moved row held new now = record row {
  status = new;
  completed_at = finished new now row.completed_at;
  state_revision = suc held.state_revision;
}

abbrev pub body : WorkflowRun → WorkflowStatus → Db → Result × Db
body held new db =
    let run : WorkflowRun = moved db.run held new db.now in
    let event : WorkflowEvent = record { from_status = held.status; to_status = new } in
    if not (among new (valid_transitions held.status))
    then (err (invalid_transition held.status new), db)
    else (ok run, record db { run = run; events = db.events ++ event ∷ [] })

abbrev pub unless_refused : Option Error → Result × Db → Db → Result × Db
unless_refused (some e) after db = (err e, db)
unless_refused none after db = after

unfoldable pub transition : WorkflowRun → WorkflowStatus → Db → Result × Db
unfolding refused
transition held new db = unless_refused (refused held db) (body held new db) db
