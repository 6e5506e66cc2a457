-- ===== src/Engine/Transaction/Commits.antt =====
-- What a committed transaction leaves true of the rows (services/workflow_transactions.py).
use agentops_workflow_platfo.Base.{
  ℕ, ◌≡◌, refl, ap, subst, ◌==◌, Option, arith, Bool-cases, inl, inr,
}
use agentops_workflow_platfo.Engine.World.{World}
use agentops_workflow_platfo.Engine.Action.{Result, ok, err, Action}
use agentops_workflow_platfo.Engine.Transaction.{transaction, commit, expected_or}
use agentops_workflow_platfo.Engine.Keeps.{Ensures, Brings}

-- A commit changes the revision only.
module _ {A : Type 0} (P Q : World → Type 0) where
  pub transaction-Brings :
      (expected : Option ℕ) (m : Action A)
      → ((w : World) (revision : ℕ)
          → Q w
          → Q (record w { run = record w.run { state_revision = revision } }))
      → Brings P m Q
      → Brings P (transaction expected m) Q
  unfolding transaction
  transaction-Brings expected m frame em = record {
    at = λ w a u p h.
        elim (Bool-cases (w.run.state_revision == expected_or expected w.run.state_revision)) [
          | inl fresh ↦ committed w p (m w) refl a u (rw fresh at h)
          | inr stale ↦ absurd (ground (arith, ap (λ r. r.0) (rw stale at h)))
        ];
  }
    where
      committed :
          (w : World)
          → P w
          → (r : Result A × World) → m w ≡ r
          → (a : A) (u : World) → commit (expected_or expected w.run.state_revision) w r ≡ (ok a, u)
          → Q u
      committed w p (ok b, v) e a u h = subst Q (ap (λ r. r.1) h) (frame v _ (em.at w b v p e))
      committed w p (err x, v) e a u h = absurd (ground (arith, ap (λ r. r.0) h))

module _ {A : Type 0} (Q : World → Type 0) where
  pub transaction-Ensures :
      (expected : Option ℕ) (m : Action A)
      → ((w : World) (revision : ℕ)
          → Q w
          → Q (record w { run = record w.run { state_revision = revision } }))
      → Ensures m Q
      → Ensures (transaction expected m) Q
  transaction-Ensures expected m frame em = record {
    at = λ w a u.
        (transaction-Brings (λ v. Unit {0}) Q expected m frame
            (record { at = λ v b x p. em.at v b x })).at
          w a u tt;
  }
