-- ===== src/Derivatives/AttemptScenarios.antt =====
-- A request for a thumbnail, and the claim of its job.
use gallery.Base.{◌≡◌, refl, true, false, none, some, [], ◌∷◌, All, inl, inr, ap}
use gallery.Derivatives.Catalog.{
  Status, Identity, Derivative, Job, Asset, Catalog, find_identity, find_id, active_job, latest_job,
  update_id, ready_bytes, reserving_jobs, held,
}
use gallery.Derivatives.Ledger.{capacity_available, capacity_counts, estimate_bytes}
use gallery.Derivatives.Coalesce.{
  Request, created, coalesce, insert_row, coalesce_row, join_row, schedule_row, reserve_row,
  queue_row, set_row, add_job, stays_terminal, has_file,
}
use gallery.Derivatives.Coalesce.Queue.{new_job}
use gallery.Derivatives.Claims.{same_token, claim_row, claim_of}
use gallery.Derivatives.Claims.Runs.{World, Fresh, claims, coalesces}
use gallery.Derivatives.Claims.Bounded.{Reach, step, empty_world, WithinAttempts, attempts_bounded}

abbrev thumbnail : Identity
thumbnail = record {
  asset_id = 7;
  kind = "thumbnail";
  variant = "thumb_256";
  source_mtime_ns = 5;
  source_size = 900;
}

abbrev request : Request
request = record {
  identity = thumbnail;
  max_long_edge = 256;
  quality = 80;
  format = "webp";
  priority = 2;
  retry_failed = false;
  deferrable = false;
  reconsider_deferred_capacity = true;
  estimated_bytes = some 1000;
}

abbrev row : Derivative
row = record {
  id = 1;
  identity = thumbnail;
  format = "webp";
  quality = 80;
  max_long_edge = 256;
  status = Status.queued;
  cache_path = none;
  byte_size = none;
  last_accessed_at = none;
  attempts = 0;
  last_error = none;
  created_at = 0;
}

abbrev picture : Asset
picture = record {
  id = 7;
  path = "/library/a.png";
  is_image = true;
  deleted = false;
  offline = false;
  mtime_ns = some 5;
  size = some 900;
}

abbrev queued_job : Job
queued_job = new_job 1 1 2 0

abbrev requested : Catalog
requested = record {
  derivatives = row ∷ [];
  jobs = queued_job ∷ [];
  next_derivative = 2;
  next_job = 2;
  assets = [];
  now = 0;
}

made :
    coalesce (λ path. false) 5000 request empty_world.catalog none
    ≡ some (record { derivative_id = 1; outcome = created; catalog = requested; ledger = none })
unfolding coalesce insert_row coalesce_row join_row schedule_row reserve_row queue_row set_row
    add_job stays_terminal has_file find_identity find_id active_job latest_job update_id
    ready_bytes reserving_jobs capacity_available capacity_counts estimate_bytes held
made = refl

abbrev requested_world : World
requested_world = record empty_world { catalog = requested }

requested_reached : Reach requested_world
requested_reached = step Reach.created (coalesces (λ path. false) 5000 request none _ made)

new_token : Fresh "t1" requested_world
new_token = record {
  claims = λ k there. elim there [ ];
  plans = λ v there. elim there [ ];
  jobs = λ j there. elim there [
    | inl e ↦ ap (λ i. same_token i.claim_token "t1") e
    | inr h ↦ elim h [ ]
  ];
}

abbrev claimed_world : World
claimed_world = record requested_world {
  catalog = claim_row "w1" "t1" 40 queued_job requested;
  claims = claim_of "w1" "t1" queued_job (row, picture) ∷ [];
}

claimed_reached : Reach claimed_world
claimed_reached =
    step requested_reached (claims "w1" "t1" 40 queued_job (row, picture) (inl refl) refl new_token)

attempts_bounded_example : All WithinAttempts claimed_world.catalog.jobs
attempts_bounded_example = attempts_bounded claimed_world claimed_reached
