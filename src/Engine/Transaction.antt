-- ===== src/Engine/Transaction.antt =====
-- `workflow_transaction` of services/workflow_transactions.py: an optimistic revision check, the
-- body, and one commit or a rollback. The legacy double without SQL semantics is left out.
pub mod Commits
use agentops_workflow_platfo.Base.{ℕ, suc, Option, none, some, ◌==◌, if◌then◌else◌}
use agentops_workflow_platfo.Engine.World.{World}
use agentops_workflow_platfo.Engine.Action.{Result, ok, err, stale_workflow, Action}

abbrev pub expected_or : Option ℕ → ℕ → ℕ
expected_or none revision = revision
expected_or (some expected) revision = expected

module _ {A : Type 0} where
  -- What a caller that holds the row as it was sees of the body's outcome.
  abbrev pub commit : ℕ → World → Result A × World → Result A × World
  commit expected w (ok a, w') =
      (ok a, record w' { run = record w'.run { state_revision = suc expected } })
  commit expected w (err e, w') = (err e, w)

  unfoldable pub transaction : Option ℕ → Action A → Action A
  transaction expected m w =
      let revision = expected_or expected w.run.state_revision in
      if w.run.state_revision == revision then commit revision w (m w) else (err stale_workflow, w)
