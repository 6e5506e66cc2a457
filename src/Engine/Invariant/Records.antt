-- ===== src/Engine/Invariant/Records.antt =====
-- New steps and new attempts keep the invariant.
use mathlib.Core.Bool.{false≢true}
use agentops_workflow_platfo.Base.{
  ℕ, String, ◌≡◌, sym, ap, ◌∙◌, subst, Option-cases, false, not, some, [], ◌∷◌, ◌==◌, any-append,
  ==→eq, arith, Bool-cases, inl, inr,
}
use agentops_workflow_platfo.Base.Float.{FloatOps}
use agentops_workflow_platfo.Base.Tables.{find-append_cases, find-key}
use agentops_workflow_platfo.Engine.Status.{Status, pending, running, waiting, terminal, among}
use agentops_workflow_platfo.Engine.World.{StepRun, StepAttempt, World, step_key, find_step}
use agentops_workflow_platfo.Engine.Action.{Action, ◌>>=◌}
use agentops_workflow_platfo.Engine.Authority.{is_active}
use agentops_workflow_platfo.Engine.Records.{
  insert_step, insert_attempt, not_ready, reload_step, pinned_node, add_step, add_attempt,
}
use agentops_workflow_platfo.Engine.Keeps.{
  Keeps, Meets, Meets-gets, Meets-bind, Meets-raise_if, Meets-modify, keeps_rules,
}
use agentops_workflow_platfo.Engine.Invariant.{Inv}

-- A pending step may be added to an execution that has not ended.
insert_step-Inv :
    (w : World) (s : StepRun)
    → among w.run.status terminal ≡ false
    → s.status ≡ pending
    → Inv w
    → Inv (insert_step s w)
insert_step-Inv w s live fresh v = record {
  children_ended = λ h. absurd (false≢true (sym live ∙ h));
  children_succeeded = λ h. ground arith;
  attempts_ended = λ j h c. elim (find-append_cases step_key j w.steps s h) [
    | inl (_, is_new) ↦ absurd (false≢true (simp (fresh, sym is_new) at c))
    | inr before ↦ v.attempts_ended j before c
  ];
}

-- A pending attempt may be added to a step that neither waits nor has ended.
insert_attempt-Inv :
    (w : World) (a : StepAttempt) {s : StepRun}
    → find_step w a.step_run_id ≡ some s
    → among s.status (waiting ∷ terminal) ≡ false
    → Inv w
    → Inv (insert_attempt a w)
insert_attempt-Inv w a {s} found ready v = record {
  children_ended = v.children_ended;
  children_succeeded = v.children_succeeded;
  attempts_ended = λ j {s = t} h c. elim (Bool-cases (a.step_run_id == j)) [
    | inl mine ↦ absurd (ground (arith, same_step (==→eq a.step_run_id j mine) h))
    | inr other ↦
        rw (any-append (is_active j) w.attempts (a ∷ []))
          (ground (arith, v.attempts_ended j {s = t} h c))
  ];
}
  where
    same_step : {j : ℕ} {t : StepRun} → a.step_run_id ≡ j → find_step w j ≡ some t → some s ≡ some t
    same_step e h = sym found ∙ rw e h

-- Reading the pinned graph writes nothing.
pinned_node-Keeps : {P : World → Type 0} (i : String) → Keeps P (pinned_node i)
unfolding pinned_node
pinned_node-Keeps i = search keeps_rules

open_live : (s : Status) → not (among s (pending ∷ running ∷ [])) ≡ false → among s terminal ≡ false
open_live s h = ground arith

pub add_step-Inv :
    (node_id branch : String) (iteration : ℕ) → Keeps Inv (add_step node_id branch iteration)
unfolding add_step
add_step-Inv node_id branch iteration = record { at = meets.at }
  where
    meets : Meets Inv (add_step node_id branch iteration) Inv
    meets = Meets-gets _ _ λ run.
        Meets-raise_if _ _ _ (λ w p. p.0)
          λ live.
            Meets-raise_if _ _ _ (λ w p. p.0)
              λ _.
                Meets-bind _ _ (pinned_node-Keeps node_id) (λ w p. p.0)
                  λ node. Meets-gets _ _ λ step. Meets-gets _ _ λ taken.
                    Meets-raise_if _ _ _ (λ w p. p.0.0.0)
                      λ _. Meets-modify _ _ λ w p.
                        insert_step-Inv w step
                          (subst (λ r. among r.status terminal ≡ false) (sym p.0.0.1)
                            (open_live run.status live))
                          (ap (λ s. s.status) (sym p.0.1)) p.0.0.0

-- A step that is loaded may be used of the rows as long as they are not written.
Meets-reload :
    {A : Type 0} {P Q : World → Type 0} (i : ℕ) (k : StepRun → Action A)
    → ((w : World) → P w → Q w)
    → ((s : StepRun) → Meets (λ w. P w × (find_step w i ≡ some s)) (k s) Q)
    → Meets P (reload_step i >>= k) Q
unfolding ◌>>=◌
Meets-reload i k weaken h = record {
  at = λ w p. elim (Option-cases (find_step w i)) [
    | inl missing ↦ rw missing (weaken w p)
    | inr (s, found) ↦ rw found ((h s).at w (p, found))
  ];
}

ready_open :
    (w : World) (s : StepRun) → not_ready w s ≡ false → among s.status (waiting ∷ terminal) ≡ false
ready_open w s h = ground arith

pub add_attempt-Inv : (fl : FloatOps) (i : ℕ) → Keeps Inv (add_attempt fl i)
unfolding add_attempt
add_attempt-Inv fl i = record { at = meets.at }
  where
    meets : Meets Inv (add_attempt fl i) Inv
    meets =
        Meets-reload i _ (λ w v. v)
          λ step. Meets-gets _ _ λ unready.
            Meets-raise_if _ _ _ (λ w p. p.0.0)
              λ ready. Meets-gets _ _ λ active.
                Meets-raise_if _ _ _ (λ w p. p.0.0.0)
                  λ none_active. Meets-gets _ _ λ number.
                    Meets-bind _ _ (pinned_node-Keeps step.node_id) (λ w p. p.0.0.0.0)
                      λ node.
                        Meets-raise_if _ _ _ (λ w p. p.0.0.0.0)
                          λ within. Meets-gets _ _ λ attempt. Meets-modify _ _ λ w p.
                            let found = p.0.0.0.0.1 in
                            insert_attempt-Inv w attempt {s = step}
                              (subst (λ j. find_step w j ≡ some step)
                                (sym (find-key step_key i w.steps found)
                                  ∙ ap (λ a. a.step_run_id) p.1)
                                found)
                              (ready_open w step (p.0.0.0.1 ∙ ready)) p.0.0.0.0.0
