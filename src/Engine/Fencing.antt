-- ===== src/Engine/Fencing.antt =====
-- Ownership of a job by its claim (services/durable_queue.py, services/worker_leases.py): what a claim
-- still holds.
pub mod Exclusive
pub mod Stopped
use mathlib.Core.Option
use agentops_workflow_platfo.Base.{
  ℕ, String, ◌≡◌, refl, ap, sym, subst, ◌∙◌, Bool, true, false, ◌&&◌, ◌||◌, Option, none, some,
  ◌==◌, ==_refl, if◌then◌else◌, arith, Bool-cases, Option-cases, ==→eq, inl, inr,
}
use agentops_workflow_platfo.Base.Tables.{find, put, find-put, find-key, find-map}
use agentops_workflow_platfo.Base.Float.{Float, FloatOps}
use agentops_workflow_platfo.Engine.World.{World, DurableJob, JobStatus, job_key, find_job}
use agentops_workflow_platfo.Engine.Action.{Result, ok, err, lease_lost, no_recovery, ◌>>=◌}
use agentops_workflow_platfo.Engine.Jobs.{
  opt_eq, Claim, claimed_row, held_by, keep_if, closed_job, close_job_in, close_live_jobs,
  lease_live, is_final, is_live_job, locked_claim, finish_job, terminate_jobs,
}
use agentops_workflow_platfo.Engine.Leases.{
  requeued, requeue_in, requeue, give_up, recover_live, recover_body, recover_found, recovered,
  recover_claim,
}
use agentops_workflow_platfo.Engine.Transaction.Commits.{transaction-Ensures}
use agentops_workflow_platfo.Engine.Keeps.{
  Keeps, Keeps-gets, Keeps-bind, Keeps-raise_if, Keeps-modify, Ensures, Ensures-bind, Ensures-keep,
  Ensures-if, Ensures-raise, Ensures-raise_if, Ensures-modify,
}

-- The claim holds no row, even when an expired lease is allowed.
abbrev pub IsFenced : Claim → World → Type 0
IsFenced claim w = claimed_row claim true w ≡ none

-- The row of the claim is overwritten by one that the claim does not hold.
overwritten :
    (claim : Claim) (w u : World) (j new : DurableJob)
    → find_job w claim.id ≡ some j
    → new.id ≡ j.id
    → u.jobs ≡ put job_key new w.jobs
    → held_by claim new ≡ false
    → IsFenced claim u
unfolding claimed_row
overwritten claim w u j new found same_id written lost = simp (written, now_new, lost)
  where
    at_key : new.id ≡ claim.id
    at_key = same_id ∙ find-key job_key claim.id w.jobs found

    now_new : find job_key claim.id (put job_key new w.jobs) ≡ some new
    now_new = ground (arith, at_key, found, find-put job_key claim.id new w.jobs, ==_refl new.id)

close_job_in-IsFenced :
    (claim : Claim) (status : JobStatus) (code : Option String) (w : World)
    → is_final status ≡ true
    → IsFenced claim (close_job_in status code w (find_job w claim.id))
close_job_in-IsFenced claim status code w final = go (find_job w claim.id) refl
  where
    go :
        (o : Option DurableJob)
        → find_job w claim.id ≡ o
        → IsFenced claim (close_job_in status code w o)
    go none e = unfold claimed_row in simp e
    go (some j) e =
        overwritten claim w (close_job_in status code w (some j)) j (closed_job status code w.now j)
          e refl refl (ground arith)

-- No claim of the job holds it once it is closed.
closed_for_all :
    (claim other : Claim) (status : JobStatus) (code : Option String) (w : World)
    → other.id ≡ claim.id
    → is_final status ≡ true
    → IsFenced other (close_job_in status code w (find_job w claim.id))
closed_for_all claim other status code w same final =
    subst (λ k. IsFenced other (close_job_in status code w (find_job w k))) same
      (close_job_in-IsFenced other status code w final)

requeue_in-IsFenced :
    (claim : Claim) (due : ℕ) (w : World) → IsFenced claim (requeue_in due w (find_job w claim.id))
requeue_in-IsFenced claim due w = go (find_job w claim.id) refl
  where
    go : (o : Option DurableJob) → find_job w claim.id ≡ o → IsFenced claim (requeue_in due w o)
    go none e = unfold claimed_row in simp e
    go (some j) e =
        overwritten claim w (requeue_in due w (some j)) j (requeued due j) e refl refl
          (ground arith)

requeue-Ensures : (claim : Claim) (due : ℕ) → Ensures (requeue claim due) (IsFenced claim)
unfolding requeue
requeue-Ensures claim due = Ensures-modify _ (requeue_in-IsFenced claim due)

pub finish_all-Ensures :
    (claim other : Claim) (status : JobStatus) (code : Option String) (allow_expired : Bool)
    → other.id ≡ claim.id
    → Ensures (finish_job claim status code allow_expired) (IsFenced other)
unfolding finish_job
finish_all-Ensures claim other status code allow_expired same = Ensures-bind _ _ λ run.
    Ensures-raise_if _ _ _ λ _. Ensures-raise_if _ _ _ λ final. Ensures-bind _ _ λ row.
      Ensures-raise_if _ _ _ λ _.
        Ensures-modify _ λ w. closed_for_all claim other status code w same (ground (arith, final))

pub finish_job-Ensures :
    (claim : Claim) (status : JobStatus) (code : Option String) (allow_expired : Bool)
    → Ensures (finish_job claim status code allow_expired) (IsFenced claim)
finish_job-Ensures claim status code allow_expired =
    finish_all-Ensures claim claim status code allow_expired refl

module _ (claim : Claim) (status : JobStatus) (code : Option String) (w : World) where
  abbrev close : DurableJob → DurableJob
  close j = if is_live_job w j then closed_job status code w.now j else j

  close-id : (j : DurableJob) → (close j).id ≡ j.id
  close-id j = elim (Bool-cases (is_live_job w j)) [ inl e ↦ rw e | inr e ↦ rw e ]

  abbrev held : DurableJob → Bool
  held j = held_by claim j && (true || lease_live j.lease_expires_at w.now)

  close_unheld :
      is_final status ≡ true
      → (o : Option DurableJob) → keep_if held o ≡ none
      → keep_if held (Option.map close o) ≡ none
  close_unheld final none h = refl
  close_unheld final (some j) h = elim (Bool-cases (is_live_job w j)) [
    | inl e ↦ rw e (rw (unowned j final))
    | inr e ↦ rw e h
  ]
    where
      unowned :
          (j : DurableJob)
          → is_final status ≡ true
          → held_by claim (closed_job status code w.now j) ≡ false
      unowned j final = ground arith

  -- Closing every open row of the execution leaves a fenced claim fenced.
  close_live_jobs-IsFenced :
      is_final status ≡ true → IsFenced claim w → IsFenced claim (close_live_jobs status code w)
  unfolding claimed_row
  close_live_jobs-IsFenced final fenced =
      rw (find-map job_key close close-id claim.id w.jobs)
        (close_unheld final (find job_key claim.id w.jobs) fenced)

terminate_jobs-Keeps :
    (claim : Claim) (status : JobStatus) (code : String)
    → is_final status ≡ true
    → Keeps (IsFenced claim) (terminate_jobs status code)
unfolding terminate_jobs
terminate_jobs-Keeps claim status code final =
    Keeps-bind _ _ (Keeps-raise_if _ _)
      λ _. Keeps-modify _ (λ w h. close_live_jobs-IsFenced claim status (some code) w final h)

give_up-Ensures : (claim : Claim) (code : String) → Ensures (give_up claim code) (IsFenced claim)
unfolding give_up
give_up-Ensures claim code = Ensures-bind _ _ λ _. Ensures-bind _ _ λ _. Ensures-bind _ _ λ _.
    Ensures-keep _ _ (finish_job-Ensures claim JobStatus.failed (some code) true)
      (λ _. terminate_jobs-Keeps claim JobStatus.cancelled code refl)

recovered-true :
    (r : Result (Unit {0}) × World) (u : World) → recovered r ≡ (ok true, u) → r ≡ (ok tt, u)
recovered-true (ok t, w) u h =
    ap {A = Result Bool × World} {B = Result (Unit {0}) × World} (λ r. (ok tt, r.1)) h
recovered-true (err no_recovery, w) u h = absurd (ground (arith, ap (λ r. r.0) h))
recovered-true (err _, w) u h = absurd (ground (arith, ap (λ r. r.0) h))

module _ (fl : FloatOps) (samples : ℕ → Float) (max_recoveries : ℕ) where
  recover_live-Ensures :
      (claim : Claim) (row : DurableJob)
      → Ensures (recover_live fl samples max_recoveries claim row) (IsFenced claim)
  unfolding recover_live
  recover_live-Ensures claim row = Ensures-bind _ _ λ guess. Ensures-bind _ _ λ rows.
      Ensures-bind _ _ λ r.
        Ensures-if _ _ _ (Ensures-bind _ _ λ _. requeue-Ensures claim r.next_due)
          (Ensures-bind _ _ λ _. give_up-Ensures claim r.exhausted_code)

  recover_found-Ensures :
      (claim : Claim) (row : Option DurableJob)
      → Ensures (recover_found fl samples max_recoveries claim row) (IsFenced claim)
  recover_found-Ensures claim none = Ensures-raise _
  recover_found-Ensures claim (some row) =
      Ensures-bind _ _
        λ run. Ensures-if _ _ _ (finish_job-Ensures claim _ _ true) (recover_live-Ensures claim row)

  recover_body-Ensures :
      (claim : Claim) → Ensures (recover_body fl samples max_recoveries claim) (IsFenced claim)
  unfolding recover_body
  recover_body-Ensures claim =
      Ensures-bind _ _ λ row. Ensures-bind _ _ λ expired. recover_found-Ensures claim expired

  -- A recovery that reports success has taken the job from the claim: in the rows that it commits, no
  -- job is held by the claim, not even with an expired lease.
  pub recover_claim-IsFenced :
      (claim : Claim) (w u : World)
      → recover_claim fl samples max_recoveries claim w ≡ (ok true, u)
      → IsFenced claim u
  unfolding recover_claim claimed_row
  recover_claim-IsFenced claim w u h =
      (transaction-Ensures (IsFenced claim) none _ (λ v revision fenced. fenced)
          (recover_body-Ensures claim)).at
        w tt u (recovered-true _ u h)
