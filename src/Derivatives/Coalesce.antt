-- ===== src/Derivatives/Coalesce.antt =====
-- `_coalesce_derivative_job` of backend/derivative_scheduler/scheduling.py: create or repair the row and
-- the job of one identity inside the caller's transaction. `is_file` is `Path(...).is_file()`, and
-- `quota` the scheduler's quota_bytes.
pub mod Insert
pub mod SameAs
pub mod LedgerExact
pub mod Queue
use text.Mathlib.Text.{◌==◌ as str_eq}
use Prim.Native.String.{String}
use gallery.Base.{
  ℕ, ◌+◌, Bool, true, false, not, ◌&&◌, ◌||◌, Option, none, some, ◌∷◌, ◌==◌, ltb, if◌then◌else◌,
}
use gallery.Derivatives.Catalog.{
  Status, JobState, Identity, Derivative, Job, Catalog, same_path, is_ready, is_evicted, is_skipped,
  find_id, find_identity, update_id, latest_job, active_job, update_job, active_count,
}
use gallery.Derivatives.Ledger.{
  Ledger, ready_row_left, ready_row_restored, job_queued, capacity_available, estimate_bytes,
}

pub record Request : Type 0 where
  pub identity : Identity
  pub max_long_edge : ℕ
  pub quality : ℕ
  pub format : String
  pub priority : ℕ
  pub retry_failed : Bool
  pub deferrable : Bool
  pub reconsider_deferred_capacity : Bool
  pub estimated_bytes : Option ℕ

pub data Outcome : Type 0 where
  ready active deferred_capacity capacity_needed_created capacity_needed created requeued : Outcome
  terminal : Status → Outcome

pub record Coalesced : Type 0 where
  pub derivative_id : ℕ
  pub outcome : Outcome
  pub catalog : Catalog
  pub ledger : Option Ledger

abbrev map_ledger : (Ledger → Ledger) → Option Ledger → Option Ledger
map_ledger f none = none
map_ledger f (some l) = some (f l)

abbrev pub new_row : Request → ℕ → ℕ → Derivative
new_row q i now = record {
  id = i;
  identity = q.identity;
  format = q.format;
  quality = q.quality;
  max_long_edge = q.max_long_edge;
  status = Status.queued;
  cache_path = none;
  byte_size = none;
  last_accessed_at = none;
  attempts = 0;
  last_error = none;
  created_at = now;
}

-- INSERT ... ON CONFLICT DO NOTHING, and whether a row came in.
unfoldable pub insert_row : Request → Catalog → Catalog × Bool
insert_row q c = elim (find_identity q.identity c.derivatives) [
  | some _ ↦ (c, false)
  | none ↦ (
    record c {
      derivatives = new_row q c.next_derivative c.now ∷ c.derivatives;
      next_derivative = c.next_derivative + 1;
    },
    true,
  )
]

unfoldable pub set_row : ℕ → (Derivative → Derivative) → Catalog → Catalog
set_row i f c = record c { derivatives = update_id i f c.derivatives }

-- WHERE status = 'evicted' AND cache_path = ?
abbrev pub evicted_at : Option String → Derivative → Bool
evicted_at path d = is_evicted d.status && same_path d.cache_path path

abbrev pub restore : Option String → Derivative → Derivative
restore path d =
    if evicted_at path d then record d { status = Status.ready; last_error = none } else d

abbrev row_count : Option String → Option Derivative → Bool
row_count path none = false
row_count path (some d) = evicted_at path d

unfoldable pub restore_row : Derivative → Catalog → Option Ledger → Coalesced
unfolding set_row
restore_row d c ledger = record {
  derivative_id = d.id;
  outcome = Outcome.ready;
  catalog = set_row d.id (restore d.cache_path) c;
  ledger =
      if row_count d.cache_path (find_id d.id c.derivatives)
      then map_ledger (ready_row_restored d.byte_size (active_count d.id c.jobs)) ledger
      else ledger;
}

abbrev pub defer : Derivative → Derivative
defer d = record d {
  status = Status.deferred_capacity;
  cache_path = none;
  byte_size = none;
  last_error = some "deferred: capacity unavailable";
}

abbrev pub requeue : Derivative → Derivative
requeue d = record d {
  status = Status.queued;
  cache_path = none;
  byte_size = none;
  last_error = none;
}

abbrev left_if_ready : Derivative → Option Ledger → Option Ledger
left_if_ready d ledger =
    if is_ready d.status then map_ledger (ready_row_left d.byte_size) ledger else ledger

unfoldable pub defer_row : Derivative → Bool → Catalog → Option Ledger → Coalesced
unfolding set_row
defer_row d inserted c ledger = record {
  derivative_id = d.id;
  outcome = if inserted then capacity_needed_created else capacity_needed;
  catalog = set_row d.id defer c;
  ledger = left_if_ready d ledger;
}

unfoldable pub add_job : ℕ → ℕ → Catalog → Catalog
add_job i priority c = record c {
  jobs =
      record {
        id = c.next_job;
        derivative_id = i;
        priority = priority;
        state = JobState.queued;
        attempts = 0;
        error = none;
        result_code = none;
        claimed_by = none;
        claim_token = none;
        lease_expires_at = none;
        created_at = c.now;
      }
      ∷ c.jobs;
  next_job = c.next_job + 1;
}

unfoldable pub queue_row : Derivative → ℕ → Bool → Catalog → Option Ledger → Coalesced
unfolding set_row add_job
queue_row d priority inserted c ledger = record {
  derivative_id = d.id;
  outcome = if inserted then created else requeued;
  catalog = set_row d.id requeue (add_job d.id priority c);
  ledger = map_ledger job_queued (left_if_ready d ledger);
}

abbrev pub waits_for_capacity : Status → Bool
waits_for_capacity Status.deferred_capacity = true
waits_for_capacity Status.evicted = true
waits_for_capacity _ = false

abbrev is_terminal : Status → Bool
is_terminal Status.failed = true
is_terminal Status.skipped = true
is_terminal _ = false

-- result_code in {"source_missing", "asset_inactive", SUPERSEDED_RESULT_CODE}
abbrev returns : Option Job → Bool
returns none = false
returns (some j) = elim j.result_code [
  | none ↦ false
  | some code ↦
      str_eq code "source_missing"
      || (str_eq code "asset_inactive" || str_eq code "source_superseded")
]

abbrev pub estimate_or : Option ℕ → Catalog → ℕ
estimate_or none c = estimate_bytes c
estimate_or (some n) c = if n == 0 then estimate_bytes c else n

-- `_capacity_available` and the two writes that follow it.
unfoldable pub reserve_row : ℕ → Request → Derivative → Bool → Catalog → Option Ledger → Coalesced
reserve_row quota q d inserted c ledger =
    let (fit, ledger') = capacity_available ledger c (estimate_or q.estimated_bytes c) quota in
    if fit then queue_row d q.priority inserted c ledger' else defer_row d inserted c ledger'

-- Neither ready, nor terminal, nor active.
unfoldable pub schedule_row : ℕ → Request → Derivative → Bool → Catalog → Option Ledger → Coalesced
schedule_row quota q d inserted c ledger =
    if waits_for_capacity d.status && (q.deferrable && not q.reconsider_deferred_capacity)
    then record {
      derivative_id = d.id;
      outcome = Outcome.deferred_capacity;
      catalog = c;
      ledger = ledger;
    }
    else if inserted || (waits_for_capacity d.status || q.deferrable)
    then reserve_row quota q d inserted c ledger
    else queue_row d q.priority inserted c ledger

unfoldable pub raise_priority : ℕ → Job → Catalog → Catalog
raise_priority priority j c =
    if ltb priority j.priority
    then record c { jobs = update_job j.id (λ k. record k { priority = priority }) c.jobs }
    else c

unfoldable pub has_file : (String → Bool) → Option String → Bool
has_file is_file none = false
has_file is_file (some path) = not (str_eq path "") && is_file path

unfoldable pub stays_terminal : Request → Derivative → Catalog → Bool
stays_terminal q d c =
    is_terminal d.status
    && (not q.retry_failed && not (is_skipped d.status && returns (latest_job d.id c.jobs)))

-- An active job keeps the row; else it is scheduled.
unfoldable pub join_row : ℕ → Request → Derivative → Bool → Catalog → Option Ledger → Coalesced
join_row quota q d inserted c ledger = elim (active_job d.id c.jobs) [
  | some j ↦ record {
    derivative_id = d.id;
    outcome = active;
    catalog = raise_priority q.priority j c;
    ledger = ledger;
  }
  | none ↦ schedule_row quota q d inserted c ledger
]

unfoldable pub coalesce_row :
    (String → Bool) → ℕ → Request → Derivative → Bool → Catalog → Option Ledger → Coalesced
coalesce_row is_file quota q d inserted c ledger =
    if is_ready d.status && has_file is_file d.cache_path
    then record { derivative_id = d.id; outcome = Outcome.ready; catalog = c; ledger = ledger }
    else if is_evicted d.status && has_file is_file d.cache_path
    then restore_row d c ledger
    else if stays_terminal q d c
    then record { derivative_id = d.id; outcome = terminal d.status; catalog = c; ledger = ledger }
    else join_row quota q d inserted c ledger

-- `none` is the RuntimeError of an identity that is not there after the insert.
unfoldable pub coalesce : (String → Bool) → ℕ → Request → Catalog → Option Ledger → Option Coalesced
coalesce is_file quota q c ledger =
    let (c', inserted) = insert_row q c in
    elim (find_identity q.identity c'.derivatives) [
      | none ↦ none
      | some d ↦ some (coalesce_row is_file quota q d inserted c' ledger)
    ]
