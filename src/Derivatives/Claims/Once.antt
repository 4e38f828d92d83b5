-- ===== src/Derivatives/Claims/Once.antt =====
-- Whatever the writers do after a claim has ended, no job comes back under it.
use text.Mathlib.Text.{◌==◌ as str_eq}
use Prim.Native.String.{String}
use gallery.Base.{
  ℕ, ◌+◌, ◌≡◌, subst, Bool, true, false, Option, none, some, List, [], ◌∷◌, ◌==◌, arith,
  if◌then◌else◌, Bool-cases, Option-cases, inl, inr, some-injective,
}
use gallery.Derivatives.Catalog.{JobState, Derivative, Job, Asset, Catalog, update_job}
use gallery.Derivatives.Coalesce.{Request, Coalesced, coalesce}
use gallery.Derivatives.Ledger.{Ledger}
use gallery.Derivatives.Claims.{
  Claim, update_where, row_count, queued_as, set_claimed, claim_row, take_job, claim_of, claim_job,
  first_of, claim_each, select_ordered, is_runnable, joined,
}
use gallery.Derivatives.Claims.Fence.{
  holds_claim, fenced, renew_lease, complete_claim, set_done, release_claim, release_claims,
  set_released, fail_claim, set_ended, Cause, verdict,
}
use gallery.Derivatives.Claims.Recovery.{Scope, Decision, recover, recover_row, still_abandoned}
use gallery.Derivatives.Claims.Stale.{Spent}
use gallery.Derivatives.Coalesce.Queue.{coalesce-Holds}
use gallery.Derivatives.Supersede.{
  retire_superseded, note_superseded, push_job, set_superseded, retires_job,
}
use gallery.Derivatives.Claims.Terminal.{Gone, terminalize, terminalize_row, set_skipped}

module _ (k : Claim) where
  abbrev SpentJobs : List Job → Type 0
  SpentJobs jobs = row_count (holds_claim k) jobs ≡ 0

  -- A write to a job that does not put it under the claim.
  abbrev Spares : (Job → Job) → Type 0
  Spares f = (j : Job) → holds_claim k j ≡ false → holds_claim k (f j) ≡ false

  spent_head :
      (j : Job) (rest : List Job)
      → SpentJobs (j ∷ rest)
      → (holds_claim k j ≡ false) × SpentJobs rest
  unfolding row_count
  spent_head j rest h = ground (arith, h)

  spent_cons :
      (j : Job) (rest : List Job) → holds_claim k j ≡ false → SpentJobs rest → SpentJobs (j ∷ rest)
  unfolding row_count
  spent_cons j rest e h = rw e (ground (arith, h))

  spared :
      (b : Bool) (f : Job → Job) (j : Job)
      → Spares f
      → holds_claim k j ≡ false
      → holds_claim k (if b then f j else j) ≡ false
  spared true f j s e = s j e
  spared false f j s e = e

  pub update_where-Spent :
      (p : Job → Bool) (f : Job → Job) (jobs : List Job)
      → Spares f
      → SpentJobs jobs
      → SpentJobs (update_where p f jobs)
  unfolding update_where
  update_where-Spent p f [] s h = h
  update_where-Spent p f (j ∷ rest) s h =
      let (e, below) = spent_head j rest h in
      spent_cons _ _ (spared (p j) f j s e) (update_where-Spent p f rest s below)

  update_job-Spent :
      (i : ℕ) (f : Job → Job) (jobs : List Job)
      → Spares f
      → SpentJobs jobs
      → SpentJobs (update_job i f jobs)
  unfolding update_job
  update_job-Spent i f [] s h = h
  update_job-Spent i f (j ∷ rest) s h =
      let (e, below) = spent_head j rest h in
      elim (Bool-cases (j.id == i)) [
        | inl here ↦ rw here (spent_cons (f j) rest (s j e) below)
        | inr away ↦ rw away (spent_cons j _ e (update_job-Spent i f rest s below))
      ]

  fenced-Spent :
      (p : Job → Bool) (f : Job → Job) (i : ℕ) (g : Derivative → Derivative) (c : Catalog)
      → Spares f
      → Spent k c
      → Spent k (fenced p f i g c).1
  fenced-Spent p f i g c s h = elim (Bool-cases (row_count p c.jobs == 1)) [
    | inl one ↦ rw one (update_where-Spent p f c.jobs s h)
    | inr other ↦ rw other (update_where-Spent p f c.jobs s h)
  ]

  ended-Spares :
      (state : JobState) (code : Option String) (message : String)
      → Spares (set_ended state code message)
  ended-Spares state code message j e = ground arith

  -- The claim of another token.
  claimed-Spares :
      (attempts : ℕ) (worker token : String) (expires : ℕ)
      → str_eq token k.claim_token ≡ false
      → Spares (set_claimed attempts worker token expires)
  claimed-Spares attempts worker token expires other j e = ground (arith, other)

  take_job-Spent :
      (worker token : String) (lease : ℕ) (j : Job) (c : Catalog)
      → str_eq token k.claim_token ≡ false
      → Spent k c
      → Spent k (take_job worker token lease j c)
  unfolding take_job
  take_job-Spent worker token lease j c other h =
      update_where-Spent (queued_as j.id) _ c.jobs
        (claimed-Spares (j.attempts + 1) worker token (c.now + lease) other) h

  claim_row-Spent :
      (worker token : String) (lease : ℕ) (j : Job) (c : Catalog)
      → str_eq token k.claim_token ≡ false
      → Spent k c
      → Spent k (claim_row worker token lease j c)
  unfolding claim_row
  claim_row-Spent worker token lease j c other h = take_job-Spent worker token lease j c other h

  pub claim_each-Spent :
      (worker : String) (tokens : ℕ → String) (lease n : ℕ) (jobs : List Job) (c : Catalog)
      → ((m : ℕ) → str_eq (tokens m) k.claim_token ≡ false)
      → Spent k c
      → Spent k (claim_each worker tokens lease n jobs c).1
  unfolding claim_each
  claim_each-Spent worker tokens lease n [] c others h = h
  claim_each-Spent worker tokens lease n (j ∷ rest) c others h =
      let c' = claim_row worker (tokens n) lease j c in
      let claimed = claim_row-Spent worker (tokens n) lease j c (others n) h in
      let taken = claim_each-Spent worker tokens lease (n + 1) rest c' others claimed in
      let tried = take_job worker (tokens n) lease j c in
      let passed =
        claim_each-Spent worker tokens lease (n + 1) rest tried others
          (take_job-Spent worker (tokens n) lease j c (others n) h) in
      elim (Bool-cases (row_count (queued_as j.id) c.jobs == 1)) [
        | inl one ↦ rw one taken
        | inr other ↦ rw other passed
      ]

  first_of-Spent :
      (worker token : String) (lease : ℕ) (c c' : Catalog) (new : Claim) (jobs : List Job)
      → str_eq token k.claim_token ≡ false
      → first_of worker token lease c jobs ≡ some (new, c')
      → Spent k c
      → Spent k c'
  unfolding first_of
  first_of-Spent worker token lease c c' new [] other e h = cc
  first_of-Spent worker token lease c c' new (j ∷ rest) other e h =
      elim (Option-cases (joined c j)) [
        | inl lost ↦ let gone : none ≡ some (new, c') = rw (lost, first_of) at e in cc
        | inr (row, found) ↦
            let made : some (claim_of worker token j row, claim_row worker token lease j c)
                ≡ some (new, c') =
              rw (found, first_of) at e in
            subst (λ p. Spent k p.1) (some-injective _ _ made)
              (claim_row-Spent worker token lease j c other h)
      ]

  pub claim_job-Spent :
      (worker token : String) (lease : ℕ) (c c' : Catalog) (new : Claim)
      → str_eq token k.claim_token ≡ false
      → claim_job worker token lease c ≡ some (new, c')
      → Spent k c
      → Spent k c'
  unfolding claim_job
  claim_job-Spent worker token lease c c' new other e h =
      first_of-Spent worker token lease c c' new (select_ordered (is_runnable c) c.jobs) other e h

  release_claim-Spent : (k' : Claim) (c : Catalog) → Spent k c → Spent k (release_claim k' c).1
  unfolding release_claim
  release_claim-Spent k' c h =
      fenced-Spent (holds_claim k') set_released k'.id _ c (λ j e. ground arith) h

  pub release_claims-Spent :
      (ks : List Claim) (c : Catalog) → Spent k c → Spent k (release_claims ks c).1
  unfolding release_claims
  release_claims-Spent [] c h = h
  release_claims-Spent (k' ∷ rest) c h = release_claims-Spent rest _ (release_claim-Spent k' c h)

  pub recover-Spent :
      (scope : Scope) (message : Decision → String) (vs : List Decision) (c : Catalog)
      → Spent k c
      → Spent k (recover scope message vs c).1
  unfolding recover recover_row
  recover-Spent scope message [] c h = h
  recover-Spent scope message (v ∷ rest) c h = recover-Spent scope message rest _ (
      fenced-Spent (still_abandoned scope c.now v) _ v.derivative_id _ c
        (ended-Spares v.state v.result_code (message v)) h)

  pub renew_lease-Spent :
      (lease : ℕ) (k' : Claim) (c : Catalog) → Spent k c → Spent k (renew_lease lease k' c).1
  unfolding renew_lease
  renew_lease-Spent lease k' c h = update_where-Spent (holds_claim k') _ c.jobs (λ j e. e) h

  pub complete_claim-Spent :
      (k' : Claim) (path : String) (size : ℕ) (c : Catalog)
      → Spent k c
      → Spent k (complete_claim k' path size c).1
  unfolding complete_claim
  complete_claim-Spent k' path size c h =
      fenced-Spent (holds_claim k') set_done k'.id _ c (λ j e. ground arith) h

  pub fail_claim-Spent :
      (stopping : Bool) (k' : Claim) (cause : Cause) (message : String) (c : Catalog)
      → Spent k c
      → Spent k (fail_claim stopping k' cause message c).1
  unfolding fail_claim
  fail_claim-Spent stopping k' cause message c h =
      let v = verdict k'.job_attempts stopping cause in
      fenced-Spent (holds_claim k') _ k'.id _ c (ended-Spares v.state v.result_code message) h

  pub terminalize-Spent :
      (message : Gone → String) (rows : List Gone) (c : Catalog)
      → Spent k c
      → Spent k (terminalize message rows c)
  unfolding terminalize terminalize_row
  terminalize-Spent message [] c h = h
  terminalize-Spent message (g ∷ rest) c h = terminalize-Spent message rest _ (
      fenced-Spent (queued_as g.job_id) (set_skipped g.result_code (message g)) g.derivative_id _ c
        (λ j e. ground arith) h)

  note_superseded-Spent :
      (rows : List Derivative) (c : Catalog) → Spent k c → Spent k (note_superseded rows c)
  unfolding note_superseded
  note_superseded-Spent [] c h = h
  note_superseded-Spent (d ∷ rest) c h =
      note_superseded-Spent rest _
        (noted _ (push_job d.id c) (spent_cons _ c.jobs (ground arith) h))
    where
      noted : (b : Bool) (c' : Catalog) → Spent k c' → Spent k (if b then c else c')
      noted true c' h' = h
      noted false c' h' = h'

  pub retire_superseded-Spent :
      (selected : Asset → Bool) (limit : Option ℕ) (c : Catalog) (l : Option Ledger)
      → Spent k c
      → Spent k (retire_superseded selected limit c l).1
  unfolding retire_superseded
  retire_superseded-Spent selected limit c l h =
      note_superseded-Spent (retire_superseded selected limit c l).0 _ (
        update_where-Spent (retires_job (retire_superseded selected limit c l).0) set_superseded
          c.jobs (λ j e. ground arith) h)

  pub coalesce-Spent :
      (is_file : String → Bool) (quota : ℕ) (q : Request) (c : Catalog) (l : Option Ledger)
      (x : Coalesced)
      → coalesce is_file quota q c l ≡ some x
      → Spent k c
      → Spent k x.catalog
  coalesce-Spent =
      coalesce-Holds (λ n jobs. SpentJobs jobs)
        (λ n i priority now jobs h. spent_cons _ jobs (ground arith) h)
        (λ n i priority jobs h.
          update_job-Spent i (λ j. record j { priority = priority }) jobs (λ j e. e) h)
