-- ===== src/Derivatives/ClaimScenarios.antt =====
-- A claim that fails, and whose job another worker claims again.
use gallery.Base.{ℕ, ◌≡◌, refl, true, false, none, some, [], ◌∷◌}
use gallery.Derivatives.Catalog.{
  Status, JobState, Derivative, Job, Asset, Catalog, find_id, update_id,
}
use gallery.Derivatives.Claims.{
  Claim, claim_job, first_of, select_ordered, is_runnable, joined, find_asset, is_current,
  claim_row, claim_of, update_where, row_count,
}
use gallery.Derivatives.Claims.Fence.{
  transient, renew_lease, complete_claim, release_claim, fail_claim, verdict,
}
use gallery.Derivatives.Claims.Ended.{claims, none_yet, and_then, failed, ended_claim_refused}

abbrev picture : Asset
picture = record {
  id = 7;
  path = "/library/a.png";
  is_image = true;
  deleted = false;
  offline = false;
  mtime_ns = some 5;
  size = some 900;
}

abbrev row_of : Status → ℕ → Derivative
row_of status attempts = record {
  id = 1;
  identity = record {
    asset_id = 7;
    kind = "thumbnail";
    variant = "thumb_256";
    source_mtime_ns = 5;
    source_size = 900;
  };
  format = "webp";
  quality = 80;
  max_long_edge = 256;
  status = status;
  cache_path = none;
  byte_size = none;
  last_accessed_at = none;
  attempts = attempts;
  last_error = none;
  created_at = 10;
}

-- The job runs under the token "t1".
abbrev claimed_job : Job
claimed_job = record {
  id = 4;
  derivative_id = 1;
  priority = 2;
  state = JobState.running;
  attempts = 1;
  error = none;
  result_code = none;
  claimed_by = some "w1";
  claim_token = some "t1";
  lease_expires_at = some 60;
  created_at = 10;
}

abbrev claimed : Catalog
claimed = record {
  derivatives = row_of Status.running 1 ∷ [];
  jobs = claimed_job ∷ [];
  next_derivative = 2;
  next_job = 5;
  assets = picture ∷ [];
  now = 20;
}

abbrev first_claim : Claim
first_claim = record {
  job_id = 4;
  job_attempts = 1;
  id = 1;
  asset_id = 7;
  source_mtime_ns = 5;
  source_size = 900;
  source_path = "/library/a.png";
  claimed_by = "w1";
  claim_token = "t1";
}

abbrev second_claim : Claim
second_claim = record first_claim { job_attempts = 2; claimed_by = "w2"; claim_token = "t2" }

abbrev retried : Catalog
retried = (fail_claim false first_claim transient "busy" claimed).1

abbrev claimed_again : Catalog
claimed_again =
    claim_row "w2" "t2" 40
      (record claimed_job {
        state = JobState.queued;
        error = some "busy";
        claimed_by = none;
        claim_token = none;
        lease_expires_at = none;
      })
      retried

again : claim_job "w2" "t2" 40 retried ≡ some (second_claim, claimed_again)
unfolding claim_job first_of select_ordered is_runnable joined find_asset is_current claim_of
    fail_claim verdict update_where row_count find_id update_id
again = refl

ended_claim_refused_example :
    (renew_lease 40 first_claim claimed_again ≡ (false, claimed_again))
    × (complete_claim first_claim "/cache/a.webp" 1200 claimed_again ≡ (false, claimed_again))
    × (release_claim first_claim claimed_again ≡ (false, claimed_again))
    × (fail_claim false first_claim transient "busy" claimed_again ≡ (false, claimed_again))
ended_claim_refused_example =
    ended_claim_refused first_claim claimed retried claimed_again 40 "/cache/a.webp" 1200 false
      transient "busy" (failed false transient "busy")
      (and_then none_yet (claims "w2" "t2" 40 second_claim claimed_again refl again))
