-- ===== src/Derivatives/Claims/Attempts.antt =====
-- No job is tried more often than `_MAX_ATTEMPTS` says, though failures and recoveries decide from rows that
-- were read before.
use Prim.Native.String.{String}
use gallery.Base.{
  ℕ, ◌≡◌, ◌≤◌, ◌<◌, refl, Bool, true, false, ◌&&◌, List, [], ◌∷◌, ◌==◌, All, Has, arith, Bool-cases,
  inl, inr,
}
use gallery.Derivatives.Catalog.{Derivative, Job, Catalog}
use gallery.Derivatives.Claims.{Claim, is_queued, is_running, queued_as, update_where, row_count}
use gallery.Derivatives.Claims.Fence.{
  holds_claim, fenced, renew_lease, complete_claim, set_done, release_claim, set_released,
  fail_claim, Cause, verdict,
}
use gallery.Derivatives.Claims.Recovery.{Scope, Decision, recover_row, still_abandoned, is_token}
use gallery.Derivatives.Claims.Terminal.{Gone, terminalize_row, set_skipped}

-- The job still runs under the token that the decision was made for.
abbrev pub matches : Decision → Job → Bool
matches v j = (j.id == v.job_id) && (is_running j.state && is_token j.claim_token v.claim_token)

-- A job, against the claims that were handed out and the decisions that were made.
pub record JobOk (ks : List Claim) (vs : List Decision) (j : Job) : Type 0 where
  pub bound : j.attempts ≤ 3
  pub room : is_queued j.state ≡ true → j.attempts < 3
  pub claims : (k : Claim) → Has k ks → holds_claim k j ≡ true → j.attempts ≡ k.job_attempts
  pub plans :
      (v : Decision)
      → Has v vs
      → matches v j ≡ true
      → (is_running v.state ≡ false) × (is_queued v.state ≡ true → j.attempts < 3)

pub update_where-All :
    {P Q : Job → Type 0} (p : Job → Bool) (f : Job → Job) (jobs : List Job)
    → ((j : Job) → p j ≡ true → P j → Q (f j))
    → ((j : Job) → p j ≡ false → P j → Q j)
    → All P jobs
    → All Q (update_where p f jobs)
unfolding update_where
update_where-All p f [] hit miss h = tt
update_where-All {Q = Q} p f (j ∷ rest) hit miss h = elim (Bool-cases (p j)) [
  | inl e ↦ (rw e (hit j e h.0), update_where-All {Q = Q} p f rest hit miss h.1)
  | inr e ↦ (rw e (miss j e h.0), update_where-All {Q = Q} p f rest hit miss h.1)
]

verdict-retries :
    (attempts : ℕ) (stopping : Bool) (cause : Cause)
    → (is_running (verdict attempts stopping cause).state ≡ false)
      × (is_queued (verdict attempts stopping cause).state ≡ true → attempts < 3)
unfolding verdict
verdict-retries attempts stopping cause = ground arith

abandoned-matches :
    (scope : Scope) (now : ℕ) (v : Decision) (j : Job)
    → still_abandoned scope now v j ≡ true
    → matches v j ≡ true
unfolding still_abandoned
abandoned-matches scope now v j e = ground (arith, e)

module _ (ks : List Claim) (vs : List Decision) where
  pub idle-JobOk :
      (j : Job)
      → is_running j.state ≡ false
      → j.attempts ≤ 3
      → (is_queued j.state ≡ true → j.attempts < 3)
      → JobOk ks vs j
  idle-JobOk j off bound room = record {
    bound = bound;
    room = room;
    claims = λ k in_ks h. ground (arith, off, h);
    plans = λ v in_vs h. ground (arith, off, h);
  }

  -- An UPDATE of the jobs under a claim, or of those that were abandoned.
  pub fenced-JobOk :
      (p : Job → Bool) (f : Job → Job) (i : ℕ) (g : Derivative → Derivative) (c : Catalog)
      → ((j : Job) → p j ≡ true → JobOk ks vs j → JobOk ks vs (f j))
      → All (JobOk ks vs) c.jobs
      → All (JobOk ks vs) (fenced p f i g c).1.jobs
  fenced-JobOk p f i g c hit h =
      let after = update_where-All {Q = JobOk ks vs} p f c.jobs hit (λ j e ok. ok) h in
      elim (Bool-cases (row_count p c.jobs == 1)) [
        | inl one ↦ rw one after
        | inr other ↦ rw other after
      ]

  pub complete_claim-JobOk :
      (k : Claim) (path : String) (size : ℕ) (c : Catalog)
      → All (JobOk ks vs) c.jobs
      → All (JobOk ks vs) (complete_claim k path size c).1.jobs
  unfolding complete_claim
  complete_claim-JobOk k path size c h =
      fenced-JobOk (holds_claim k) set_done k.id _ c
        (λ j e ok. idle-JobOk (set_done j) refl ok.bound (λ q. cc)) h

  pub release_claim-JobOk :
      (k : Claim) (c : Catalog)
      → All (JobOk ks vs) c.jobs
      → All (JobOk ks vs) (release_claim k c).1.jobs
  unfolding release_claim
  release_claim-JobOk k c h =
      fenced-JobOk (holds_claim k) set_released k.id _ c
        (λ j e ok.
          let b = ok.bound in
          idle-JobOk (set_released j) refl (omega (arith, b)) (λ q. omega (arith, b)))
        h

  pub renew_lease-JobOk :
      (lease : ℕ) (k : Claim) (c : Catalog)
      → All (JobOk ks vs) c.jobs
      → All (JobOk ks vs) (renew_lease lease k c).1.jobs
  unfolding renew_lease
  renew_lease-JobOk lease k c h =
      update_where-All {Q = JobOk ks vs} (holds_claim k) _ c.jobs
        (λ j e ok. record {
          bound = ok.bound;
          room = ok.room;
          claims = ok.claims;
          plans = ok.plans;
        })
        (λ j e ok. ok) h

  pub fail_claim-JobOk :
      (stopping : Bool) (k : Claim) (cause : Cause) (message : String) (c : Catalog)
      → Has k ks
      → All (JobOk ks vs) c.jobs
      → All (JobOk ks vs) (fail_claim stopping k cause message c).1.jobs
  unfolding fail_claim
  fail_claim-JobOk stopping k cause message c known h =
      let (off, retries) = verdict-retries k.job_attempts stopping cause in
      fenced-JobOk (holds_claim k) _ k.id _ c
        (λ j e ok. idle-JobOk _ off ok.bound (λ q. rw (ok.claims k known e) (retries q))) h

  pub recover_row-JobOk :
      (scope : Scope) (message : String) (v : Decision) (c : Catalog)
      → Has v vs
      → All (JobOk ks vs) c.jobs
      → All (JobOk ks vs) (recover_row scope message v c).1.jobs
  unfolding recover_row
  recover_row-JobOk scope message v c known h =
      fenced-JobOk (still_abandoned scope c.now v) _ v.derivative_id _ c
        (λ j e ok.
          let fits = ok.plans v known (abandoned-matches scope c.now v j e) in
          idle-JobOk _ fits.0 ok.bound fits.1)
        h

  pub terminalize_row-JobOk :
      (message : String) (g : Gone) (c : Catalog)
      → All (JobOk ks vs) c.jobs
      → All (JobOk ks vs) (terminalize_row message g c).jobs
  unfolding terminalize_row
  terminalize_row-JobOk message g c h =
      fenced-JobOk (queued_as g.job_id) (set_skipped g.result_code message) g.derivative_id _ c
        (λ j e ok. idle-JobOk (set_skipped g.result_code message j) refl ok.bound (λ q. cc)) h
