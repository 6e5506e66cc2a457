-- ===== src/Engine/Invariant/Actions.antt =====
-- The actions of Engine/Records and Engine/Endings keep the invariant, on every path.
use mathlib.Core.Bool.{false≢true}
use agentops_workflow_platfo.Base.{
  ℕ, String, ◌≡◌, refl, sym, ap, ◌∙◌, Bool, true, false, Option, none, some, inl, inr,
}
use agentops_workflow_platfo.Base.Float.{Float, FloatOps}
use agentops_workflow_platfo.Base.Tables.{find, find-put_cases, find-key, any-put, any-put_back}
use agentops_workflow_platfo.Engine.Status.{Status}
use agentops_workflow_platfo.Engine.World.{
  StepRun, StepAttempt, ExecutionApproval, approval_key, ApprovalStatus, Classification, World,
  find_step, find_attempt, step_key, attempt_key,
}
use agentops_workflow_platfo.Engine.Action.{Result, ok, err, Action}
use agentops_workflow_platfo.Engine.Authority.{
  Entity, is_active, is_child, is_live_child, is_unsuccessful_child, transition,
}
use agentops_workflow_platfo.Engine.Records.{pinned_node}
use agentops_workflow_platfo.Engine.Endings.{
  write_step, write_attempt, set_step_error, set_step_next, set_attempt_error, set_classification,
  set_run_error, move_step, move_attempt, resolved_in, resolve, close_pending, cancel_attempt,
  cancel_step, cancel_siblings, expire_attempt, expire_step, expire_execution,
  cancel_siblings_if_parallel, fail_run, fail_given_attempt, fail_given_step, fail_execution, lift,
  settle_step, fail_attempt,
}
use agentops_workflow_platfo.Engine.Keeps.{
  Keeps, Keeps-modify, Keeps-pure, Keeps-raise, keeps_rules,
}
use agentops_workflow_platfo.Engine.Invariant.{Inv, transition-Inv}

not_true : {b c : Bool} → (c ≡ true → b ≡ true) → b ≡ false → c ≡ false
not_true {c = true} f h = absurd (false≢true (sym h ∙ f refl))
not_true {c = false} f h = refl

-- Writing fields other than the status, the key and the owner keeps the invariant.
module _ (f : StepRun → StepRun) (same_id : (s : StepRun) → (f s).id ≡ s.id)
    (same_status : (s : StepRun) → (f s).status ≡ s.status)
    (same_owner : (s : StepRun) → (f s).execution_id ≡ s.execution_id) where
  pub write_step-Inv : (i : ℕ) (w : World) → Inv w → Inv (write_step f (find_step w i) w)
  write_step-Inv i w v = go (find_step w i) refl
    where
      go : (o : Option StepRun) → find_step w i ≡ o → Inv (write_step f o w)
      go none _ = v
      go (some s) e = record {
        children_ended = λ h.
            not_true
              (any-put step_key (is_live_child w.run.id) (f s) w.steps here
                (λ q. simp (same_owner s, same_status s) at q))
              (v.children_ended h);
        children_succeeded = λ h.
            let (some_child, none_bad) = v.children_succeeded h in
            (
              any-put_back step_key (is_child w.run.id) (f s) w.steps here
                  (λ q. simp (same_owner s) q) some_child,
              not_true
                  (any-put step_key (is_unsuccessful_child w.run.id) (f s) w.steps here
                    (λ q. simp (same_owner s, same_status s) at q))
                  none_bad,
            );
        attempts_ended = λ j h c. elim (find-put_cases step_key j (f s) w.steps h) [
          | inl (hit, is_new) ↦
              v.attempts_ended j {s = s} (rw (sym hit ∙ same_id s ∙ at_key) e)
                (rw (← same_status s) (rw (ap (λ t. t.status) is_new) c))
          | inr before ↦ v.attempts_ended j before c
        ];
      }
        where
          at_key : s.id ≡ i
          at_key = find-key step_key i w.steps e

          here : find_step w (f s).id ≡ some s
          here = rw (same_id s ∙ at_key) e

module _ (f : StepAttempt → StepAttempt) (same_id : (a : StepAttempt) → (f a).id ≡ a.id)
    (same_status : (a : StepAttempt) → (f a).status ≡ a.status)
    (same_owner : (a : StepAttempt) → (f a).step_run_id ≡ a.step_run_id) where
  write_attempt-Inv : (i : ℕ) (w : World) → Inv w → Inv (write_attempt f (find_attempt w i) w)
  write_attempt-Inv i w v = go (find_attempt w i) refl
    where
      go : (o : Option StepAttempt) → find_attempt w i ≡ o → Inv (write_attempt f o w)
      go none _ = v
      go (some a) e = record {
        children_ended = v.children_ended;
        children_succeeded = v.children_succeeded;
        attempts_ended = λ j h c.
            not_true
              (any-put attempt_key (is_active j) (f a) w.attempts here
                (λ q. simp (same_owner a, same_status a) at q))
              (v.attempts_ended j h c);
      }
        where
          here : find_attempt w (f a).id ≡ some a
          here = rw (same_id a ∙ find-key attempt_key i w.attempts e) e

abbrev pub KeepsInv : {A : Type 0} → Action A → Type 0
KeepsInv m = Keeps Inv m

pub set_step_error-Inv : (i : ℕ) (code : Option String) → KeepsInv (set_step_error i code)
unfolding set_step_error
set_step_error-Inv i code = Keeps-modify _ (write_step-Inv _ (λ s. refl) (λ s. refl) (λ s. refl) i)

pub set_step_next-Inv : (i : ℕ) (due : Option ℕ) → KeepsInv (set_step_next i due)
unfolding set_step_next
set_step_next-Inv i due = Keeps-modify _ (write_step-Inv _ (λ s. refl) (λ s. refl) (λ s. refl) i)

pub set_attempt_error-Inv : (i : ℕ) (code : String) → KeepsInv (set_attempt_error i code)
unfolding set_attempt_error
set_attempt_error-Inv i code =
    Keeps-modify _ (write_attempt-Inv _ (λ a. refl) (λ a. refl) (λ a. refl) i)

pub set_classification-Inv : (i : ℕ) (c : Classification) → KeepsInv (set_classification i c)
unfolding set_classification
set_classification-Inv i c =
    Keeps-modify _ (write_attempt-Inv _ (λ a. refl) (λ a. refl) (λ a. refl) i)

-- The invariant reads the executions's key and status, its steps and its attempts, and nothing else.
pub Inv-frame :
    {w u : World}
    → w.run.id ≡ u.run.id
    → w.run.status ≡ u.run.status
    → w.steps ≡ u.steps
    → w.attempts ≡ u.attempts
    → Inv w
    → Inv u
Inv-frame key status steps attempts v = record {
  children_ended = λ h. simp (sym steps, sym key) (v.children_ended (simp status h));
  children_succeeded = λ h. simp (sym steps, sym key) (v.children_succeeded (status ∙ h));
  attempts_ended = λ i {s} h c. simp (sym attempts) (v.attempts_ended i {s = s} (simp steps h) c);
}

pub set_run_error-Inv : (code : String) → KeepsInv (set_run_error code)
unfolding set_run_error
set_run_error-Inv code = Keeps-modify _ λ w v. Inv-frame refl refl refl refl v

pub move-Inv : (e : Entity) (new : Status) → KeepsInv (transition e new)
move-Inv e new = record { at = transition-Inv e new }

pub resolve-Inv :
    (status : ApprovalStatus) (actor : Option ℕ) (feedback hash : Option String) (i : ℕ)
    → KeepsInv (resolve status actor feedback hash i)
unfolding resolve
resolve-Inv status actor feedback hash i =
    Keeps-modify _ λ w v. go w v (find approval_key i w.approvals)
  where
    go :
        (w : World)
        → Inv w
        → (o : Option ExecutionApproval) → Inv (resolved_in w status actor feedback hash o)
    go w v none = v
    go w v (some a) = Inv-frame refl refl refl refl v

pub ruleset inv_rules = (
  keeps_rules, set_step_error-Inv, set_step_next-Inv, set_attempt_error-Inv, set_classification-Inv,
  set_run_error-Inv, move-Inv,
)

pub move_step-Inv : (i : ℕ) (new : Status) → KeepsInv (move_step i new)
unfolding move_step
move_step-Inv i new = search inv_rules

pub move_attempt-Inv : (i : ℕ) (new : Status) → KeepsInv (move_attempt i new)
unfolding move_attempt
move_attempt-Inv i new = search inv_rules

pub cancel_step-Inv : (code : String) (i : ℕ) → KeepsInv (cancel_step code i)
unfolding cancel_step
cancel_step-Inv code i = search (inv_rules, move_attempt-Inv, move_step-Inv) depth 8

pub cancel_attempt-Inv : (code : String) (i : ℕ) → KeepsInv (cancel_attempt code i)
unfolding cancel_attempt
cancel_attempt-Inv code i = search (inv_rules, move_attempt-Inv)

pub close_pending-Inv : (status : ApprovalStatus) → KeepsInv (close_pending status)
unfolding close_pending
close_pending-Inv status = search (inv_rules, resolve-Inv)

pub ruleset ending_rules = (
  inv_rules, move_step-Inv, move_attempt-Inv, resolve-Inv, cancel_attempt-Inv, close_pending-Inv,
  cancel_step-Inv,
)

pub cancel_siblings-Inv : (code : String) → KeepsInv (cancel_siblings code)
unfolding cancel_siblings
cancel_siblings-Inv code = search ending_rules

expire_attempt-Inv : (i : ℕ) → KeepsInv (expire_attempt i)
unfolding expire_attempt
expire_attempt-Inv i = search ending_rules

expire_step-Inv : (i : ℕ) → KeepsInv (expire_step i)
unfolding expire_step
expire_step-Inv i = search (ending_rules, expire_attempt-Inv) depth 8

pub expire_execution-Inv : KeepsInv expire_execution
unfolding expire_execution
expire_execution-Inv = search (ending_rules, expire_step-Inv) depth 8

pub siblings-Inv : KeepsInv cancel_siblings_if_parallel
unfolding cancel_siblings_if_parallel
siblings-Inv = search (ending_rules, cancel_siblings-Inv)

pub fail_run-Inv : (code : String) → KeepsInv (fail_run code)
unfolding fail_run
fail_run-Inv code = search (ending_rules, siblings-Inv)

fail_given_attempt-Inv : (code : String) (a : Option ℕ) → KeepsInv (fail_given_attempt code a)
unfolding fail_given_attempt
fail_given_attempt-Inv code none = search ending_rules
fail_given_attempt-Inv code (some a) = search ending_rules

fail_given_step-Inv : (code : String) (i : Option ℕ) → KeepsInv (fail_given_step code i)
unfolding fail_given_step
fail_given_step-Inv code none = search ending_rules
fail_given_step-Inv code (some i) = search ending_rules

pub fail_execution-Inv :
    (code : String) (step attempt : Option ℕ) → KeepsInv (fail_execution code step attempt)
unfolding fail_execution
fail_execution-Inv code step attempt =
    search (ending_rules, siblings-Inv, fail_given_attempt-Inv, fail_given_step-Inv)

settle_step-Inv : (i : ℕ) (code : String) (due : Option ℕ) → KeepsInv (settle_step i code due)
unfolding settle_step
settle_step-Inv i code none = search (ending_rules, fail_run-Inv)
settle_step-Inv i code (some due) = search ending_rules

pub lift-Inv : {A : Type 0} (r : Result A) → KeepsInv (lift r)
lift-Inv (ok a) = Keeps-pure a
lift-Inv (err e) = Keeps-raise e

pub pinned_node-Inv : (i : String) → KeepsInv (pinned_node i)
unfolding pinned_node
pinned_node-Inv i = search inv_rules

pub fail_attempt-Inv :
    (fl : FloatOps) (step : StepRun) (attempt : StepAttempt) (code : String) (not_before : Option ℕ)
    (sample : Float)
    → KeepsInv (fail_attempt fl step attempt code not_before sample)
unfolding fail_attempt
fail_attempt-Inv fl step attempt code not_before sample =
    search (ending_rules, lift-Inv, pinned_node-Inv, settle_step-Inv) depth 16
