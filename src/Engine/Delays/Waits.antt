-- ===== src/Engine/Delays/Waits.antt =====
-- What a delay leaves true: the invariant, and a bound on the wait.
use agentops_workflow_platfo.Base.{
  ℕ, ◌+◌, ◌-◌, ◌≤◌, ◌≡◌, ap, sym, subst, refl, Bool, true, false, not, Option, none, some, ◌==◌,
  ==_refl, arith, ltb, Bool-cases, Option-cases, inl, inr,
}
use agentops_workflow_platfo.Base.Tables.{find-put, find-key}
use agentops_workflow_platfo.Engine.Status.{Status, waiting, completed}
use agentops_workflow_platfo.Engine.Authority.{
  Entity, whole_run, of_step, of_attempt, moved, moved_step, transition, transition_forbidden,
}
use agentops_workflow_platfo.Engine.Endings.{write_step, move_step, move_attempt}
use agentops_workflow_platfo.Base.Int.{is_nonnegative, later-le}
use agentops_workflow_platfo.Base.Float.{Float, FloatOps}
use agentops_workflow_platfo.Data.Json.{object, end}
use agentops_workflow_platfo.Data.Schema.{DataSchema, validate_data}
use agentops_workflow_platfo.Engine.World.{World, StepRun, step_key, find_step, find_attempt}
use agentops_workflow_platfo.Engine.Action.{
  Error, Action, ok, modify, raise_if, gets, when, ◌>>=◌, ◌>>◌,
}
use agentops_workflow_platfo.Engine.Delays.{
  DelayConfig, delay_due, week, set_step_delay, delay_event, schedule_delay,
}
use agentops_workflow_platfo.Engine.Keeps.{
  Brings, Brings-bind, Brings-Ensures, Brings-Keeps, Keeps, Keeps-modify, Keeps-bind, Keeps-gets,
  Keeps-or_raise, Keeps-when, Ensures, Ensures-modify,
}
use agentops_workflow_platfo.Engine.Invariant.Actions.{
  KeepsInv, Inv-frame, write_step-Inv, ending_rules,
}

set_step_delay-Inv : (i due : ℕ) → KeepsInv (set_step_delay i due)
unfolding set_step_delay
set_step_delay-Inv i due = Keeps-modify _ (write_step-Inv _ (λ s. refl) (λ s. refl) (λ s. refl) i)

module _ (fl : FloatOps) (finite : Float → Bool) (latest : ℕ) where
  delay_event-Inv : (i : ℕ) → KeepsInv (modify (delay_event i))
  delay_event-Inv i = Keeps-modify _ λ w v. Inv-frame refl refl refl refl v

  pub schedule_delay-Inv :
      (step attempt : ℕ) (config : DelayConfig) (output_schema : DataSchema)
      → KeepsInv (schedule_delay fl finite latest step attempt config output_schema)
  unfolding schedule_delay
  schedule_delay-Inv step attempt config output_schema =
      search (ending_rules, set_step_delay-Inv, delay_event-Inv) depth 12

module _ {A : Type 0} where
  -- Code after a guard has run only when the guard let it.
  past_guard :
      (b : Bool) (e : Error) (m : Action A) (w u : World) (a : A)
      → (raise_if b e >>= λ _. m) w ≡ (ok a, u)
      → (b ≡ false) × (m w ≡ (ok a, u))
  unfolding ◌>>=◌
  past_guard true e m w u a h = absurd (ground (arith, ap (λ r. r.0) h))
  past_guard false e m w u a h = (refl, h)

not-false : (b : Bool) → not b ≡ false → b ≡ true
not-false b h = ground arith

within :
    (now due latest : ℕ)
    → ltb latest due ≡ false
    → ltb week (due - now) ≡ false
    → (due ≤ latest) × (due ≤ now + week)
within now due latest in_range short = ground arith

-- The row, if there is one, has its timer.
abbrev HasTimer : ℕ → Option StepRun → Type 0
HasTimer due none = Unit {0}
HasTimer due (some s) = (s.wake_at ≡ some due) × (s.waiting_reason ≡ some "delay")

-- There is a row, and it waits for its timer.
abbrev pub WaitsUntil : ℕ → Option StepRun → Type 0
WaitsUntil due none = ⊥
WaitsUntil due (some s) =
    (s.status ≡ waiting) × (s.wake_at ≡ some due) × (s.waiting_reason ≡ some "delay")

abbrev Any : World → Type 0
Any w = Unit {0}

module _ (i due : ℕ) where
  abbrev Timed : World → Type 0
  Timed w = HasTimer due (find_step w i)

  abbrev Waiting : World → Type 0
  Waiting w = WaitsUntil due (find_step w i)

  written :
      (o : Option StepRun) (w : World)
      → find_step w i ≡ o
      → HasTimer due (
          find_step
            (write_step (λ s. record s { waiting_reason = some "delay"; wake_at = some due }) o w)
            i)
  written none w e = rw e tt
  written (some s) w e =
      rw
        (
          find-put step_key i (record s { waiting_reason = some "delay"; wake_at = some due })
              w.steps,
          e,
        )
        (rw (subst (λ k. (k == i) ≡ true) (sym (find-key step_key i w.steps e)) (==_refl i))
          (refl, refl))

  set_step_delay-Timed : Ensures (set_step_delay i due) Timed
  unfolding set_step_delay
  set_step_delay-Timed = Ensures-modify _ λ w. written (find_step w i) w refl

  transition-Keeps :
      (P : World → Type 0) (e : Entity) (new : Status)
      → ((w : World) → P w → P (moved w e new))
      → Keeps P (transition e new)
  unfolding transition
  transition-Keeps P e new k = record {
    at = λ w h. elim (Bool-cases (transition_forbidden w e new)) [
      | inl no_way ↦ rw no_way h
      | inr free ↦ rw free (k w h)
    ];
  }

  attempt_moved-Timed :
      (w : World) (a : ℕ) (seen new : Status) → Timed w → Timed (moved w (of_attempt a seen) new)
  unfolding moved
  attempt_moved-Timed w a seen new h = elim (Option-cases (find_attempt w a)) [
    | inl z ↦ rw z h
    | inr (t, found) ↦ rw found h
  ]

  move_attempt-Timed : (a : ℕ) → Keeps Timed (move_attempt a completed)
  unfolding move_attempt
  move_attempt-Timed a = Keeps-bind _ _ (Keeps-gets _) λ found.
      Keeps-bind _ _ (Keeps-or_raise found _) λ t.
        transition-Keeps Timed _ completed λ w h. attempt_moved-Timed w t.id t.status completed h

  now_waiting :
      (w : World) (s : StepRun)
      → find_step w i ≡ some s
      → Timed w
      → Waiting (moved w (of_step s.id s.status) waiting)
  unfolding moved
  now_waiting w s e h =
      let here = find-key step_key i w.steps e in
      rw (here, e)
        (rw (find-put step_key i (moved_step s waiting w.now) w.steps, e)
          (rw (subst (λ k. (k == i) ≡ true) (sym here) (==_refl i))
            (refl, (rw e at h).0, (rw e at h).1)))

  move_step-Waiting : Brings Timed (move_step i waiting) Waiting
  unfolding move_step ◌>>=◌ transition
  move_step-Waiting = record {
    at = λ w a u h r. elim (Option-cases (find_step w i)) [
      | inl z ↦ absurd (ground (arith, ap (λ q. q.0) (rw z at r)))
      | inr (s, e) ↦ elim (Bool-cases (transition_forbidden w (of_step s.id s.status) waiting)) [
        | inl no_way ↦ absurd (ground (arith, ap (λ q. q.0) (rw no_way at (rw e at r))))
        | inr free ↦ subst Waiting (ap (λ q. q.1) (rw free at (rw e at r))) (now_waiting w s e h)
      ]
    ];
  }

  run_moved-Waiting : (new : Status) (w : World) → Waiting w → Waiting (moved w whole_run new)
  unfolding moved
  run_moved-Waiting new w h = h

  -- The writes of a delay that is registered.
  registered :
      (attempt : ℕ)
      → Brings Any
          (do
            set_step_delay i due
            move_attempt attempt completed
            move_step i waiting
            parallel ← gets (λ w. w.run.parallel_mode)
            when (not parallel) (transition whole_run waiting)
            modify (delay_event i))
          Waiting
  registered attempt = Brings-bind _ _ (Brings-Ensures _ set_step_delay-Timed) λ _.
      Brings-bind _ _ (Brings-Keeps _ (move_attempt-Timed attempt)) λ _.
        Brings-bind _ _ move_step-Waiting λ _. Brings-Keeps _ (
          Keeps-bind _ _ (Keeps-gets _) λ parallel.
            Keeps-bind _ _
              (Keeps-when _ _
                (transition-Keeps Waiting whole_run waiting (run_moved-Waiting waiting)))
              λ _. Keeps-modify _ λ w h. h)

-- Field(ge=0) of `seconds`; a moment in the past is replaced by now.
abbrev pub is_forward : FloatOps → DelayConfig → Bool
is_forward fl (DelayConfig.seconds s) = is_nonnegative (fl.timedelta s)
is_forward fl (DelayConfig.wake_at t) = true

delay_due-le :
    (fl : FloatOps) (config : DelayConfig) (now : ℕ)
    → is_forward fl config ≡ true
    → now ≤ delay_due fl config now
unfolding delay_due
delay_due-le fl (DelayConfig.seconds s) now h = later-le now (fl.timedelta s) h
delay_due-le fl (DelayConfig.wake_at t) now h = ground arith

module _ (fl : FloatOps) (finite : Float → Bool) (latest : ℕ) where
  -- When `schedule_delay` returns, the row of the step waits, with the moment of the delay's configuration
  -- as its timer. That moment is no earlier than now, at most seven days later and one that a datetime can
  -- be, and the node's output schema accepts the empty object. The seconds of the delay are not negative.
  pub schedule_delay-WaitsUntil :
      (step attempt : ℕ) (config : DelayConfig) (output_schema : DataSchema) (w u : World)
      → is_forward fl config ≡ true
      → schedule_delay fl finite latest step attempt config output_schema w ≡ (ok tt, u)
      → WaitsUntil (delay_due fl config w.now) (find_step u step)
        × (w.now ≤ delay_due fl config w.now)
        × (delay_due fl config w.now ≤ latest)
        × (delay_due fl config w.now ≤ w.now + week)
        × (validate_data finite (object end) output_schema ≡ true)
  unfolding schedule_delay ◌>>=◌
  schedule_delay-WaitsUntil step attempt config output_schema w u forward h =
      let in_range = past_guard (ltb latest (delay_due fl config w.now)) _ _ w u tt h in
      let short = past_guard (ltb week (delay_due fl config w.now - w.now)) _ _ w u tt in_range.1 in
      let accepts =
        past_guard (not (validate_data finite (object end) output_schema)) _ _ w u tt short.1 in
      let bounds = within w.now (delay_due fl config w.now) latest in_range.0 short.0 in
      (
        (registered step (delay_due fl config w.now) attempt).at w tt u tt accepts.1,
        delay_due-le fl config w.now forward,
        bounds.0,
        bounds.1,
        not-false _ accepts.0,
      )
