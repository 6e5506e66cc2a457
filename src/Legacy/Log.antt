-- ===== src/Legacy/Log.antt =====
-- The log of a run's transitions tells its status, and no caller overwrites what it has not read.
use mathlib.Core.Bool.{false≢true}
use mathlib.Core.Option.{some-injective}
use agentops_workflow_platfo.Base.{
  ℕ, suc, ◌≡◌, refl, sym, ap, ◌∙◌, Bool, true, false, ◌&&◌, ◌||◌, ◌==◌, Option, none, some, List,
  [], ◌∷◌, ◌++◌, any, arith, is_some, Bool-cases, inl, inr, if◌then◌else◌,
}
use agentops_workflow_platfo.Legacy.{
  WorkflowStatus, created, reviewer_running, waiting_for_human, writer_running, same, among,
  valid_transitions, terminal, WorkflowRun, WorkflowEvent, Db, ok, err, stale_workflow, Error,
  finished, refused, body, unless_refused, transition,
}

-- The status after the events of a log, which has to be a chain of valid transitions.
unfoldable pub follow : WorkflowStatus → List WorkflowEvent → Option WorkflowStatus
follow s [] = some s
follow s (e ∷ es) =
    let rest = follow e.to_status es in
    if same s e.from_status && among e.to_status (valid_transitions s) then rest else none

same_refl : (s : WorkflowStatus) → same s s ≡ true
same_refl s = ground arith

abbrev allowed : WorkflowStatus → WorkflowEvent → Bool
allowed s e = same s e.from_status && among e.to_status (valid_transitions s)

follow-append :
    (s t new : WorkflowStatus) (es : List WorkflowEvent)
    → follow s es ≡ some t
    → among new (valid_transitions t) ≡ true
    → follow s (es ++ record { from_status = t; to_status = new } ∷ []) ≡ some new
unfolding follow
follow-append s t new [] h valid =
    let at_t : s ≡ t = some-injective s t h in rw at_t (simp (same_refl t, valid))
follow-append s t new (e ∷ es) h valid = elim (Bool-cases (allowed s e)) [
  | inl c ↦ rw c (follow-append e.to_status t new es (rw c at h) valid)
  | inr c ↦ absurd (false≢true (ap is_some (rw c at h)))
]

pub record Logged (db : Db) : Type 0 where
  pub logged : follow created db.events ≡ some db.run.status
  pub timed : is_some db.run.completed_at ≡ among db.run.status terminal

-- What a transition that is carried out has checked.
free :
    (held : WorkflowRun) (db : Db)
    → refused held db ≡ none
    → (db.controlled ≡ false)
      × (db.run.state_revision ≡ held.state_revision)
      × (db.run.status ≡ held.status)
unfolding refused
free held db h = ground arith

same→eq : (a b : WorkflowStatus) → same a b ≡ true → a ≡ b
same→eq a b h = ground arith

-- Nothing moves from a terminal status.
live : (s new : WorkflowStatus) → among new (valid_transitions s) ≡ true → among s terminal ≡ false
live s new h = ground arith

timed_after :
    (new s : WorkflowStatus) (now : ℕ) (at : Option ℕ)
    → is_some at ≡ among s terminal
    → among s terminal ≡ false
    → is_some (finished new now at) ≡ among new terminal
timed_after new s now at before open_status = elim (Bool-cases (among new terminal)) [
  | inl c ↦ simp c
  | inr c ↦ simp (c, before, open_status)
]

moved-Logged :
    (held : WorkflowRun) (new : WorkflowStatus) (db : Db)
    → db.run.status ≡ held.status
    → among new (valid_transitions held.status) ≡ true
    → Logged db
    → Logged (body held new db).1
moved-Logged held new db seen valid v = simp valid (record {
  logged = follow-append created held.status new db.events (v.logged ∙ ap some seen) valid;
  timed =
      timed_after new db.run.status db.now db.run.completed_at v.timed
        (ap (λ s. among s terminal) seen ∙ live held.status new valid);
})

-- A transition, carried out or refused, keeps that the log is a chain of valid transitions from
-- `created` to the run's status, and that exactly the ended runs have a time of completion.
pub transition-Logged :
    (held : WorkflowRun) (new : WorkflowStatus) (db : Db)
    → Logged db
    → Logged (transition held new db).1
unfolding transition
transition-Logged held new db v = go (refused held db) refl
  where
    go :
        (o : Option Error) → refused held db ≡ o → Logged (unless_refused o (body held new db) db).1
    go (some e) _ = v
    go none h = elim (Bool-cases (among new (valid_transitions held.status))) [
      | inl valid ↦ moved-Logged held new db (free held db h).2 valid v
      | inr no_way ↦ simp no_way v
    ]

-- A copy that is one revision behind is refused.
late :
    (held : WorkflowRun) (new : WorkflowStatus) (db : Db)
    → db.controlled ≡ false
    → db.run.state_revision ≡ suc held.state_revision
    → transition held new db ≡ (err stale_workflow, db)
unfolding transition refused
late held new db legacy behind = simp (legacy, other)
  where
    other : (db.run.state_revision == held.state_revision) ≡ false
    other = ground (arith, behind)

-- Once a caller has moved the run, whoever still holds the row as it was before can not: the
-- attempt raises and writes nothing.
pub transition-stale_workflow :
    (held run : WorkflowRun) (first second : WorkflowStatus) (before after : Db)
    → transition held first before ≡ (ok run, after)
    → transition held second after ≡ (err stale_workflow, after)
unfolding transition
transition-stale_workflow held run first second before after h = go (refused held before) refl h
  where
    go :
        (o : Option Error)
        → refused held before ≡ o
        → unless_refused o (body held first before) before ≡ (ok run, after)
        → transition held second after ≡ (err stale_workflow, after)
    go (some e) _ h = absurd (ground (arith, ap (λ r. r.0) h))
    go none e h = elim (Bool-cases (among first (valid_transitions held.status))) [
      | inl valid ↦
          let written = ap (λ r. r.1) (rw valid at h) in
          late held second after (ap (λ db. db.controlled) (sym written) ∙ (free held before e).0)
            (ap (λ db. db.run.state_revision) (sym written))
      | inr no_way ↦ absurd (ground (arith, ap (λ r. r.0) (rw no_way at h)))
    ]

and_right : (a b : Bool) → (a && b) ≡ true → b ≡ true
and_right a b h = ground arith

abbrev under_review : List WorkflowStatus
under_review = reviewer_running ∷ waiting_for_human ∷ writer_running ∷ []

entered :
    (s u : WorkflowStatus) (seen : Bool)
    → among u (valid_transitions s) ≡ true
    → (among u under_review || seen) ≡ true
    → (among s under_review || (same u reviewer_running || seen)) ≡ true
entered s u seen valid h = ground arith

still_open :
    (t : WorkflowStatus)
    → among t (waiting_for_human ∷ writer_running ∷ []) ≡ true
    → (among t under_review || false) ≡ true
still_open t later = ground arith

reviewed :
    (s t : WorkflowStatus) (es : List WorkflowEvent)
    → follow s es ≡ some t
    → among t (waiting_for_human ∷ writer_running ∷ []) ≡ true
    → (among s under_review || any (λ e. same e.to_status reviewer_running) es) ≡ true
unfolding follow
reviewed s t [] h later = let at_t : s ≡ t = some-injective s t h in rw at_t (still_open t later)
reviewed s t (e ∷ es) h later = elim (Bool-cases (allowed s e)) [
  | inl c ↦
      entered s e.to_status _ (and_right (same s e.from_status) _ c)
        (reviewed e.to_status t es (rw c at h) later)
  | inr c ↦ absurd (false≢true (ap is_some (rw c at h)))
]

-- A run whose log is such a chain, and which is in `writer_running` or waiting for a human, has an
-- event into `reviewer_running` in its log.
pub Logged-reviewed :
    (db : Db)
    → Logged db
    → among db.run.status (waiting_for_human ∷ writer_running ∷ []) ≡ true
    → any (λ e. same e.to_status reviewer_running) db.events ≡ true
Logged-reviewed db v later = reviewed created db.run.status db.events v.logged later
