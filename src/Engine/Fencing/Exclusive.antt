-- ===== src/Engine/Fencing/Exclusive.antt =====
-- Who may finish a job: `finish_job` of services/durable_queue.py with two claims of one job.
use agentops_workflow_platfo.Base.{
  ℕ, String, ◌≡◌, refl, ap, sym, subst, ◌∙◌, Bool, true, false, ◌&&◌, ◌||◌, Option, none, some,
  ◌==◌, if◌then◌else◌, arith, Bool-cases, Option-cases, ==→eq, inl, inr,
}
use agentops_workflow_platfo.Engine.World.{World, DurableJob, JobStatus, find_job}
use agentops_workflow_platfo.Engine.Action.{ok, err, lease_lost, ◌>>=◌}
use agentops_workflow_platfo.Engine.Jobs.{
  opt_eq, Claim, claimed_row, held_by, keep_if, close_job_in, lease_live, is_final, locked_claim,
  finish_job,
}
use agentops_workflow_platfo.Engine.Keeps.{
  Keeps, Keeps-gets, Keeps-bind, Keeps-raise_if, Keeps-modify,
}
use agentops_workflow_platfo.Engine.Fencing.{IsFenced, finish_all-Ensures, finish_job-Ensures}

-- What is not held with an expired lease is not held with a live one.
narrower :
    (a b c : Bool) (j : DurableJob)
    → (if a && (true || b) then some j else none) ≡ none
    → (if a && (c || b) then some j else none) ≡ none
narrower a b c j h = ground arith

IsFenced-claimed_row :
    (claim : Claim) (allow_expired : Bool) (w : World)
    → IsFenced claim w
    → claimed_row claim allow_expired w ≡ none
unfolding claimed_row
IsFenced-claimed_row claim allow_expired w fenced = go (find_job w claim.id) fenced
  where
    go :
        (o : Option DurableJob)
        → keep_if (λ j. held_by claim j && (true || lease_live j.lease_expires_at w.now)) o ≡ none
        → keep_if (λ j. held_by claim j && (allow_expired || lease_live j.lease_expires_at w.now)) o
          ≡ none
    go none h = refl
    go (some j) h =
        narrower (held_by claim j) (lease_live j.lease_expires_at w.now) allow_expired j h

pub finish_job-lease_lost :
    (claim : Claim) (status : JobStatus) (code : Option String) (allow_expired : Bool) (w : World)
    → w.run.id ≡ claim.execution_id
    → w.tenant ≡ claim.organization_id
    → IsFenced claim w
    → finish_job claim status code allow_expired w ≡ (err lease_lost, w)
unfolding finish_job locked_claim ◌>>=◌
finish_job-lease_lost claim status code allow_expired w run tenant fenced =
    elim (Bool-cases (is_final status)) [
      | inl final ↦ simp (run_here, final, tenant_here, unclaimed)
      | inr open_status ↦ simp (run_here, open_status)
    ]
  where
    run_here : (w.run.id == claim.execution_id) ≡ true
    run_here = ground (arith, run)

    tenant_here : (w.tenant == claim.organization_id) ≡ true
    tenant_here = ground (arith, tenant)

    unclaimed : claimed_row claim allow_expired w ≡ none
    unclaimed = IsFenced-claimed_row claim allow_expired w fenced

-- Another token than the row's holds nothing.
other_token :
    (mine other : Claim) (j : DurableJob)
    → opt_eq j.claim_token mine.token ≡ true
    → (mine.token == other.token) ≡ false
    → held_by other j ≡ false
other_token mine other j h n = ground (arith, same_token j.claim_token h)
  where
    same_token : (o : Option ℕ) → opt_eq o mine.token ≡ true → opt_eq o other.token ≡ false
    same_token none e = refl
    same_token (some t) e = rw (==→eq t mine.token e) n

-- What `finish_job` has found when it returns.
record Owned (claim : Claim) (w : World) : Type 0 where
  row : DurableJob
  found : find_job w claim.id ≡ some row
  token : opt_eq row.claim_token claim.token ≡ true
  run_here : w.run.id ≡ claim.execution_id
  tenant_here : w.tenant ≡ claim.organization_id

finish_job-Owned :
    (claim : Claim) (status : JobStatus) (code : Option String) (allow_expired : Bool) (w u : World)
    → finish_job claim status code allow_expired w ≡ (ok tt, u)
    → Owned claim w
unfolding finish_job locked_claim claimed_row ◌>>=◌
finish_job-Owned claim status code allow_expired w u h =
    elim (Bool-cases (w.run.id == claim.execution_id)) [
      | inr other ↦ absurd (ground (arith, ap (λ r. r.0) (rw other at h)))
      | inl here ↦ elim (Bool-cases (is_final status)) [
        | inr going ↦ absurd (ground (arith, ap (λ r. r.0) (rw (here, going) at h)))
        | inl final ↦ elim (Bool-cases (w.tenant == claim.organization_id)) [
          | inr foreign ↦ absurd (ground (arith, ap (λ r. r.0) (rw (here, final, foreign) at h)))
          | inl own ↦ elim (Option-cases (find_job w claim.id)) [
            | inl z ↦ absurd (ground (arith, ap (λ r. r.0) (rw (here, final, own, z) at h)))
            | inr (j, e) ↦
                elim (Bool-cases
                  (held_by claim j && (allow_expired || lease_live j.lease_expires_at w.now))) [
                    | inr lost ↦
                        absurd (ground (arith, ap (λ r. r.0) (rw (here, final, own, e, lost) at h)))
                    | inl kept ↦ record {
                      row = j;
                      found = e;
                      token = ground (arith, kept);
                      run_here = ==→eq _ _ here;
                      tenant_here = ==→eq _ _ own;
                    }
                  ]
          ]
        ]
      ]
    ]

Owned-IsFenced :
    (claim other : Claim) (w : World)
    → other.id ≡ claim.id
    → (claim.token == other.token) ≡ false
    → Owned claim w
    → IsFenced other w
unfolding claimed_row
Owned-IsFenced claim other w same n o =
    rw (subst (λ k. find_job w k ≡ some o.row) (sym same) o.found)
      (rw (other_token claim other o.row o.token n) refl)

-- The execution and the tenant that the rows are of.
abbrev Stands : ℕ → ℕ → World → Type 0
Stands run tenant w = (w.run.id ≡ run) × (w.tenant ≡ tenant)

close_job_in-Stands :
    (run tenant : ℕ) (status : JobStatus) (code : Option String) (w : World) (o : Option DurableJob)
    → Stands run tenant w
    → Stands run tenant (close_job_in status code w o)
close_job_in-Stands run tenant status code w none h = h
close_job_in-Stands run tenant status code w (some j) h = h

finish_job-Stands :
    (run tenant : ℕ) (claim : Claim) (status : JobStatus) (code : Option String)
    (allow_expired : Bool)
    → Keeps (Stands run tenant) (finish_job claim status code allow_expired)
unfolding finish_job locked_claim
finish_job-Stands run tenant claim status code allow_expired =
    search (Keeps-bind, Keeps-raise_if, Keeps-gets, Keeps-modify, close_job_in-Stands) depth 14

-- When `finish_job` returns for a claim, no claim of that job with another token can finish the job before
-- it, and afterwards neither that other claim nor the claim itself can finish it again: `lease_lost` is
-- raised and no row is written, even when an expired lease is allowed.
pub finish_job-exclusive :
    (claim other : Claim) (status later : JobStatus) (code reason : Option String)
    (allow_expired forced : Bool) (w u : World)
    → other.id ≡ claim.id
    → other.execution_id ≡ claim.execution_id
    → other.organization_id ≡ claim.organization_id
    → (claim.token == other.token) ≡ false
    → finish_job claim status code allow_expired w ≡ (ok tt, u)
    → (finish_job other later reason forced w ≡ (err lease_lost, w))
      × (finish_job other later reason forced u ≡ (err lease_lost, u))
      × (finish_job claim later reason forced u ≡ (err lease_lost, u))
finish_job-exclusive claim other status later code reason allow_expired forced w u same run tenant n
      h =
    let o = finish_job-Owned claim status code allow_expired w u h in
    let stands =
      subst (Stands claim.execution_id claim.organization_id) (ap (λ r. r.1) h) (
        (finish_job-Stands _ _ claim status code allow_expired).at w (o.run_here, o.tenant_here)) in
    (
      finish_job-lease_lost other later reason forced w (o.run_here ∙ sym run)
          (o.tenant_here ∙ sym tenant) (Owned-IsFenced claim other w same n o),
      finish_job-lease_lost other later reason forced u (stands.0 ∙ sym run) (stands.1 ∙ sym tenant)
          ((finish_all-Ensures claim other status code allow_expired same).at w tt u h),
      finish_job-lease_lost claim later reason forced u stands.0 stands.1
          ((finish_job-Ensures claim status code allow_expired).at w tt u h),
    )
