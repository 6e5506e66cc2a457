-- ===== src/Engine/Invariant.antt =====
-- What holds of the rows of an execution between two calls of the authority.
pub mod Actions
pub mod Records
pub mod Operations
use agentops_workflow_platfo.Base.{
  ℕ, ◌≡◌, refl, sym, ap, Option, none, ◌∙◌, Bool, true, false, not, ◌||◌, some, any, arith,
  Bool-cases, inl, inr, ◌∷◌,
}
use mathlib.Core.Bool.{false≢true}
use agentops_workflow_platfo.Base.Tables.{find-put_cases, find-key, any-put}
use agentops_workflow_platfo.Engine.Status.{
  Status, completed, waiting, terminal, among, generic_transitions, same→eq, allowed_live,
}
use agentops_workflow_platfo.Engine.World.{
  World, StepRun, StepAttempt, find_step, find_attempt, step_key, attempt_key,
}
use agentops_workflow_platfo.Engine.Authority.{
  Entity, whole_run, of_step, of_attempt, has_active, is_active, is_live_child, is_child,
  is_unsuccessful_child, moved, moved_step_in, moved_attempt_in, moved_step, moved_attempt,
  transition, transition_forbidden, kind_forbids, owned, current_status, is_status, entity_status,
}

pub record Inv (w : World) : Type 0 where
  pub children_ended :
      among w.run.status terminal ≡ true → any (is_live_child w.run.id) w.steps ≡ false
  pub children_succeeded :
      w.run.status ≡ completed
      → (any (is_child w.run.id) w.steps ≡ true)
        × (any (is_unsuccessful_child w.run.id) w.steps ≡ false)
  pub attempts_ended :
      (i : ℕ) {s : StepRun}
      → find_step w i ≡ some s
      → among s.status (waiting ∷ terminal) ≡ true
      → has_active w i ≡ false

moved_run-Inv :
    (w : World) (new : Status)
    → transition_forbidden w whole_run new ≡ false
    → Inv w
    → Inv (moved w whole_run new)
unfolding moved transition_forbidden kind_forbids
moved_run-Inv w new free v = record {
  children_ended = λ h. ground arith;
  children_succeeded = λ h. ground arith;
  attempts_ended = λ i f h. v.attempts_ended i f h;
}

-- A step of an execution that has not ended may be moved, to an ended or waiting status only when no
-- attempt of it is left.
module _ (w : World) (s : StepRun) (new : Status) (found : find_step w s.id ≡ some s)
    (live : among w.run.status terminal ≡ false)
    (done : among new (waiting ∷ terminal) ≡ true → has_active w s.id ≡ false) (v : Inv w) where
  moved_step-Inv : Inv (moved_step_in w new (some s))
  moved_step-Inv = record {
    children_ended = λ h. absurd (false≢true (sym live ∙ h));
    children_succeeded = λ h. ground arith;
    attempts_ended = λ j f c. elim (find-put_cases step_key j (moved_step s new w.now) w.steps f) [
      | inl (here, is_new) ↦ rw (← here) (done (rw (ap (λ t. t.status) is_new) c))
      | inr before ↦ v.attempts_ended j before c
    ];
  }

module _ (w : World) (a : StepAttempt) (new : Status) (found : find_attempt w a.id ≡ some a)
    (old : among a.status terminal ≡ false) (live : among w.run.status terminal ≡ false)
    (v : Inv w) where
  still_inactive :
      (i : ℕ) → has_active w i ≡ false → has_active (moved_attempt_in w new (some a)) i ≡ false
  still_inactive i h = elim (Bool-cases (has_active (moved_attempt_in w new (some a)) i)) [
    | inl t ↦ absurd (
        false≢true (
          sym h
          ∙ any-put attempt_key (is_active i) (moved_attempt a new w.now) w.attempts found
              (λ q. ground arith) t))
    | inr f ↦ f
  ]

  moved_attempt-Inv : Inv (moved_attempt_in w new (some a))
  moved_attempt-Inv = record {
    children_ended = v.children_ended;
    children_succeeded = v.children_succeeded;
    attempts_ended = λ j f c. still_inactive j (v.attempts_ended j f c);
  }

tests_passed :
    (a b c d : Bool)
    → (not a || not b || not c || d) ≡ false
    → (a ≡ true) × (b ≡ true) × (c ≡ true) × (d ≡ false)
tests_passed a b c d h = ground arith

-- What the authority has checked when it moves an entity.
pub passed :
    (w : World) (e : Entity) (new : Status)
    → transition_forbidden w e new ≡ false
    → (owned w e ≡ true)
      × (is_status (current_status w e) (entity_status w e) ≡ true)
      × (among new (generic_transitions (entity_status w e)) ≡ true)
      × (kind_forbids w e new ≡ false)
unfolding transition_forbidden
passed w e new free = tests_passed _ _ _ _ free

module _ (w : World) (i : ℕ) (seen new : Status) where
  step_facts :
      transition_forbidden w (of_step i seen) new ≡ false
      → (among w.run.status terminal ≡ false)
        × (among new (waiting ∷ terminal) ≡ true → has_active w i ≡ false)
  unfolding kind_forbids
  step_facts free = ground (arith, (passed w (of_step i seen) new free).3)

  attempt_facts :
      {a : StepAttempt}
      → find_attempt w i ≡ some a
      → transition_forbidden w (of_attempt i seen) new ≡ false
      → (among w.run.status terminal ≡ false) × (among a.status terminal ≡ false)
  attempt_facts {a} f free =
      let facts = passed w (of_attempt i seen) new free in
      let now_seen : a.status ≡ seen = same→eq a.status seen (rw f at facts.1) in
      (ground_kind facts.3, rw now_seen (allowed_live seen new facts.2))
    where
      ground_kind :
          kind_forbids w (of_attempt i seen) new ≡ false → among w.run.status terminal ≡ false
      ground_kind k = (unfold kind_forbids in ground (arith, k))

abbrev InvMoved : World → Entity → Status → Type 0
InvMoved w e new = transition_forbidden w e new ≡ false → Inv w → Inv (moved w e new)

step_moved-Inv : (w : World) (i : ℕ) (seen new : Status) → InvMoved w (of_step i seen) new
unfolding moved
step_moved-Inv w i seen new free v = go (find_step w i) refl
  where
    go : (o : Option StepRun) → find_step w i ≡ o → Inv (moved_step_in w new o)
    go none _ = v
    go (some s) e =
        let here = find-key step_key i w.steps e in
        let facts = step_facts w i seen new free in
        moved_step-Inv w s new (simp here e) facts.0 (simp here facts.1) v

attempt_moved-Inv : (w : World) (i : ℕ) (seen new : Status) → InvMoved w (of_attempt i seen) new
unfolding moved
attempt_moved-Inv w i seen new free v = go (find_attempt w i) refl
  where
    go : (o : Option StepAttempt) → find_attempt w i ≡ o → Inv (moved_attempt_in w new o)
    go none _ = v
    go (some a) e =
        let here = find-key attempt_key i w.attempts e in
        let facts = attempt_facts w i seen new e free in
        moved_attempt-Inv w a new (simp here e) facts.1 facts.0 v

moved-Inv : (w : World) (e : Entity) (new : Status) → InvMoved w e new
moved-Inv w whole_run new = moved_run-Inv w new
moved-Inv w (of_step i seen) new = step_moved-Inv w i seen new
moved-Inv w (of_attempt i seen) new = attempt_moved-Inv w i seen new

-- The authority keeps the invariant, whatever entity and status it is asked for, and whether it moves
-- the entity or raises.
pub transition-Inv : (e : Entity) (new : Status) (w : World) → Inv w → Inv (transition e new w).1
unfolding transition
transition-Inv e new w v = elim (Bool-cases (transition_forbidden w e new)) [
  | inl no_way ↦ rw no_way v
  | inr free ↦ rw free (moved-Inv w e new free v)
]
