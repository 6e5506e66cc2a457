-- ===== src/Engine/Retry.antt =====
-- `retry_decision` of services/retry_runtime.py. `random.random()` is the argument `sample`.
pub mod Bounds
use agentops_workflow_platfo.Base.{
  ℕ, ◌+◌, ◌-◌, max, String, str_eq, Bool, false, not, ◌&&◌, ◌||◌, Option, none, some, List, [], ◌∷◌,
  any, leb, if◌then◌else◌,
}
use agentops_workflow_platfo.Base.Int.{later}
use agentops_workflow_platfo.Base.Float.{Float, FloatOps}
use agentops_workflow_platfo.Engine.World.{RetryPolicy, Classification, retryable, permanent}
use agentops_workflow_platfo.Engine.Action.{Result, ok, err, value_error}

-- PERMANENT_ERRORS
abbrev pub permanent_errors : List String
permanent_errors =
    "llm_tool_call_invalid" ∷ "llm_call_limit" ∷ "llm_round_limit" ∷ "llm_cost_limit"
    ∷ "llm_budget_unavailable" ∷ "llm_conversation_limit" ∷ "provider_rejected" ∷ "provider_refused"
    ∷ "provider_incomplete" ∷ "provider_response_invalid" ∷ "configuration_missing"
    ∷ "review_invalid" ∷ "quality_revision_busy" ∷ "binding_missing" ∷ "input_invalid"
    ∷ "output_invalid" ∷ "expression_range" ∷ "route_invalid" ∷ "unsupported_executor"
    ∷ "graph_stalled" ∷ "run_deadline" ∷ "tool_approval_required" ∷ "tool_denied"
    ∷ "tool_input_invalid" ∷ "tool_response_invalid" ∷ "tool_contract_mismatch"
    ∷ "tool_input_conflict" ∷ "tool_credential_changed" ∷ "tool_credential_revoked"
    ∷ "tool_resolution_required" ∷ []

unfoldable pub contains : String → List String → Bool
contains code = any (str_eq code)

-- `deadline is not None and moment >= deadline`
abbrev pub past : Option ℕ → ℕ → Bool
past none moment = false
past (some d) moment = leb d moment

abbrev pub max_due : ℕ → Option ℕ → ℕ
max_due due none = due
max_due due (some t) = max due t

abbrev pub classify : Bool → Classification
classify b = if b then retryable else permanent

pub record Decision : Type 0 where
  pub classification : Classification
  pub due : Option ℕ
  pub code : String

unfoldable pub is_retryable : RetryPolicy → String → Bool → Bool
is_retryable policy code abandoned =
    not (contains code permanent_errors)
    && (contains code policy.retryable_errors || (abandoned && str_eq code "worker_abandoned"))

module _ (fl : FloatOps) where
  abbrev pub min_float : Float → Float → Float
  min_float a b = if fl.less b a then b else a

  -- `delay`, from the pinned policy, the attempt's number and the jitter sample
  unfoldable pub backoff_delay : RetryPolicy → ℕ → Float → Float
  backoff_delay policy number sample =
      let base =
        min_float policy.max_delay_seconds
          (fl.times policy.initial_delay_seconds (fl.power policy.backoff_factor (number - 1))) in
      let one = fl.of_number 1 in
      let spread = fl.times (fl.times (fl.of_number 2) policy.jitter_fraction) sample in
      min_float policy.max_delay_seconds
        (fl.times base (fl.plus (fl.minus one policy.jitter_fraction) spread))

  abbrev pub in_unit : Float → Bool
  in_unit sample = fl.less_equal (fl.of_number 0) sample && fl.less_equal sample (fl.of_number 1)

  unfoldable pub retry_due : RetryPolicy → ℕ → ℕ → Option ℕ → Float → ℕ
  retry_due policy number now retry_not_before sample =
      max_due (later now (fl.timedelta (backoff_delay policy number sample))) retry_not_before

  unfoldable pub retry_decision :
      RetryPolicy → ℕ → String → ℕ → Option ℕ → Float → Bool → Option ℕ → Result Decision
  retry_decision policy number code now deadline sample abandoned retry_not_before =
      let retry = is_retryable policy code abandoned in
      let due = retry_due policy number now retry_not_before sample in
      if past deadline now
      then ok (record { classification = permanent; due = none; code = "run_deadline" })
      else if not retry
      then ok (record { classification = classify retry; due = none; code = code })
      else if leb policy.max_attempts number
      then ok (record { classification = classify retry; due = none; code = "retry_exhausted" })
      else if not (in_unit sample)
      then err (value_error "Jitter sample must be between zero and one")
      else if past deadline due
      then ok (record { classification = classify retry; due = none; code = "run_deadline" })
      else ok (record { classification = classify retry; due = some due; code = code })
