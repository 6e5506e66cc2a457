-- ===== src/Engine/Retry/Bounds.antt =====
-- When a failed attempt is tried again, and when its next attempt is due.
use agentops_workflow_platfo.Base.{
  Bool-cases, inl, inr, ℕ, ◌≤◌, String, ◌≡◌, Bool, true, not, ◌&&◌, Option, none, some, is_some,
  ltb, arith,
}
use agentops_workflow_platfo.Base.Int.{later}
use agentops_workflow_platfo.Base.Float.{Float, FloatOps}
use agentops_workflow_platfo.Engine.World.{RetryPolicy}
use agentops_workflow_platfo.Engine.Action.{Result, ok, err}
use agentops_workflow_platfo.Engine.Retry.{
  Decision, past, is_retryable, min_float, backoff_delay, retry_due, retry_decision, in_unit,
  max_due,
}

-- Whether a decision was made, and whether it has a next attempt.
abbrev pub retries : Result Decision → Option Bool
retries (ok d) = some (is_some d.due)
retries (err e) = none

module _ (fl : FloatOps) where
  -- With a jitter sample of the unit interval, an attempt is retried exactly when the deadline is not
  -- over, the code is retryable, an attempt is left and the next one is due before the deadline.
  pub retry_decision_iff :
      (policy : RetryPolicy) (number : ℕ) (code : String) (now : ℕ) (deadline : Option ℕ)
      (sample : Float) (abandoned : Bool) (not_before : Option ℕ)
      → in_unit fl sample ≡ true
      → retries (retry_decision fl policy number code now deadline sample abandoned not_before)
        ≡ some (
            not (past deadline now)
            && is_retryable policy code abandoned
            && ltb number policy.max_attempts
            && not (past deadline (retry_due fl policy number now not_before sample)))
  unfolding retry_decision
  retry_decision_iff policy number code now deadline sample abandoned not_before unit = ground arith

  -- A longer delay ends later.
  abbrev IsMonotone : Type 0
  IsMonotone =
      (a b : Float)
      → fl.less b a ≡ true
      → (now : ℕ) → later now (fl.timedelta b) ≤ later now (fl.timedelta a)

  min_float-le :
      IsMonotone
      → (a b : Float) (now : ℕ)
      → later now (fl.timedelta (min_float fl a b)) ≤ later now (fl.timedelta a)
  min_float-le monotone a b now = elim (Bool-cases (fl.less b a)) [
    | inl less ↦ rw less (monotone a b less now)
    | inr more ↦ rw more (omega arith)
  ]

  module _
      (monotone : (a b : Float)
        → fl.less b a ≡ true
        → (now : ℕ) → later now (fl.timedelta b) ≤ later now (fl.timedelta a)) where
    backoff_delay-le :
        (policy : RetryPolicy) (number now : ℕ) (sample : Float)
        → later now (fl.timedelta (backoff_delay fl policy number sample))
          ≤ later now (fl.timedelta policy.max_delay_seconds)
    unfolding backoff_delay
    backoff_delay-le policy number now sample = min_float-le monotone policy.max_delay_seconds _ now

    -- When `timedelta` is monotone, the next attempt is due no later than the policy's maximal delay
    -- from now, or than the moment that the provider names.
    pub retry_decision_capped :
        (policy : RetryPolicy) (number : ℕ) (code : String) (now : ℕ) (deadline : Option ℕ)
        (sample : Float) (abandoned : Bool) (not_before : Option ℕ) (d : Decision) (t : ℕ)
        → retry_decision fl policy number code now deadline sample abandoned not_before ≡ ok d
        → d.due ≡ some t
        → t ≤ max_due (later now (fl.timedelta policy.max_delay_seconds)) not_before
    unfolding retry_decision retry_due
    retry_decision_capped policy number code now deadline sample abandoned not_before d t h e =
        ground (arith, backoff_delay-le policy number now sample)
