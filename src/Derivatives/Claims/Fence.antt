-- ===== src/Derivatives/Claims/Fence.antt =====
-- backend/derivative_scheduler/execution.py: the writes that keep or end a claim. Each changes the job only
-- while it runs under the token of the claim.
use Prim.Native.String.{String}
use gallery.Base.{
  ℕ, ◌+◌, ◌-◌, Bool, true, false, not, ◌&&◌, Option, none, some, List, [], ◌∷◌, ◌==◌, ltb,
  if◌then◌else◌,
}
use gallery.Derivatives.Catalog.{Status, JobState, Derivative, Job, Catalog, update_id}
use gallery.Derivatives.Claims.{
  Claim, max_attempts, is_running, same_token, update_where, row_count,
}

-- WHERE id = ? AND state = 'running' AND claim_token = ?
abbrev pub holds_claim : Claim → Job → Bool
holds_claim c j =
    (j.id == c.job_id) && (is_running j.state && same_token j.claim_token c.claim_token)

-- claimed_by = NULL, claim_token = NULL, lease_expires_at = NULL
abbrev pub unclaimed : Job → Job
unclaimed j = record j { claimed_by = none; claim_token = none; lease_expires_at = none }

-- An UPDATE of the job, and one of its derivative if just one job was updated.
abbrev pub fenced :
    (Job → Bool) → (Job → Job) → ℕ → (Derivative → Derivative) → Catalog → Bool × Catalog
fenced p f i g c =
    let jobs' = update_where p f c.jobs in
    if row_count p c.jobs == 1
    then (true, record c { jobs = jobs'; derivatives = update_id i g c.derivatives })
    else (false, record c { jobs = jobs' })

-- `_renew_lease`
unfoldable pub renew_lease : ℕ → Claim → Catalog → Bool × Catalog
renew_lease lease k c = (
  row_count (holds_claim k) c.jobs == 1,
  record c {
    jobs =
        update_where (holds_claim k) (λ j. record j { lease_expires_at = some (c.now + lease) })
          c.jobs;
  },
)

-- `_complete_claim`
abbrev pub set_done : Job → Job
set_done j = record (unclaimed j) { state = JobState.done; error = none; result_code = none }

unfoldable pub complete_claim : Claim → String → ℕ → Catalog → Bool × Catalog
complete_claim k path size c =
    fenced (holds_claim k) set_done k.id
      (λ d. record d {
        status = Status.ready;
        cache_path = some path;
        byte_size = some size;
        last_accessed_at = some c.now;
        last_error = none;
      })
      c

-- `_release_claims`: MAX(attempts - 1, 0) is the subtraction of natural numbers.
abbrev pub set_released : Job → Job
set_released j = record (unclaimed j) { state = JobState.queued; attempts = j.attempts - 1 }

abbrev is_running_row : Status → Bool
is_running_row Status.running = true
is_running_row _ = false

unfoldable pub release_claim : Claim → Catalog → Bool × Catalog
release_claim k c =
    fenced (holds_claim k) set_released k.id
      (λ d.
        if is_running_row d.status
        then record d { status = Status.queued; attempts = d.attempts - 1 }
        else d)
      c

unfoldable pub release_claims : List Claim → Catalog → ℕ × Catalog
release_claims [] c = (0, c)
release_claims (k ∷ rest) c =
    let (released, c') = release_claim k c in
    let (more, c'') = release_claims rest c' in ((if released then more + 1 else more), c'')

-- What `_handle_failure` tells apart.
pub data Cause : Type 0 where
  skip : String → Cause  -- _DerivativeSkip, with its result code
  missing_file : Cause  -- FileNotFoundError
  invalid_source : Cause  -- UnidentifiedImageError, or an APIError below 500
  transient : Cause  -- OSError, OperationalError, DatabaseWriterUnavailable
  other : Cause

pub record Verdict : Type 0 where
  pub state : JobState
  pub result_code : Option String
  pub retry : Bool

unfoldable pub verdict : ℕ → Bool → Cause → Verdict
verdict attempts stopping (skip code) = record {
  state = JobState.skipped;
  result_code = some code;
  retry = false;
}
verdict attempts stopping missing_file = record {
  state = JobState.skipped;
  result_code = some "source_missing";
  retry = false;
}
verdict attempts stopping invalid_source = record {
  state = JobState.failed;
  result_code = some "invalid_source";
  retry = false;
}
verdict attempts stopping transient =
    if ltb attempts max_attempts && not stopping
    then record { state = JobState.queued; result_code = none; retry = true }
    else record { state = JobState.failed; result_code = some "attempts_exhausted"; retry = false }
verdict attempts stopping other = record {
  state = JobState.failed;
  result_code = some "internal_error";
  retry = false;
}

-- The text of a job state as the status of its derivative.
abbrev pub as_status : JobState → Status
as_status JobState.queued = Status.queued
as_status JobState.running = Status.running
as_status JobState.done = Status.ready  -- no job is failed or recovered into 'done'
as_status JobState.failed = Status.failed
as_status JobState.skipped = Status.skipped

abbrev pub set_ended : JobState → Option String → String → Job → Job
set_ended state code message j = record (unclaimed j) {
  state = state;
  error = some message;
  result_code = code;
}

-- `_handle_failure`
unfoldable pub fail_claim : Bool → Claim → Cause → String → Catalog → Bool × Catalog
fail_claim stopping k cause message c =
    let v = verdict k.job_attempts stopping cause in
    fenced (holds_claim k) (set_ended v.state v.result_code message) k.id
      (λ d. record d { status = as_status v.state; last_error = some message }) c
