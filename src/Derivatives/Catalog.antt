-- ===== src/Derivatives/Catalog.antt =====
-- The tables asset_derivatives and derivative_jobs, as backend/derivative_scheduler reads and writes
-- them. A table is the list of its rows, newest first, so `ORDER BY id DESC LIMIT 1` is the first row
-- that matches; ids are AUTOINCREMENT keys. Times are counted in ticks; started_at,
-- completed_at and updated_at, which no query here reads, are left out.
pub mod Tables
use text.Mathlib.Text.{◌==◌ as str_eq}
use Prim.Native.String.{String}
use gallery.Base.{
  ℕ, ◌+◌, Bool, true, false, not, ◌&&◌, Option, none, some, List, [], ◌∷◌, ◌==◌, if◌then◌else◌,
}

pub data Status : Type 0 where
  queued running ready failed skipped evicted deferred_capacity : Status

pub data JobState : Type 0 where
  queued running done failed skipped : JobState

-- UNIQUE(asset_id, kind, variant, source_mtime_ns, source_size)
pub record Identity : Type 0 where
  pub asset_id : ℕ
  pub kind : String
  pub variant : String
  pub source_mtime_ns : ℕ
  pub source_size : ℕ

pub record Derivative : Type 0 where
  pub id : ℕ
  pub identity : Identity
  pub open identity use *
  pub format : String
  pub quality : ℕ
  pub max_long_edge : ℕ
  pub status : Status
  pub cache_path : Option String
  pub byte_size : Option ℕ
  pub last_accessed_at : Option ℕ
  pub attempts : ℕ
  pub last_error : Option String
  pub created_at : ℕ

pub record Job : Type 0 where
  pub id : ℕ
  pub derivative_id : ℕ
  pub priority : ℕ
  pub state : JobState
  pub attempts : ℕ
  pub error : Option String
  pub result_code : Option String
  pub claimed_by : Option String
  pub claim_token : Option String
  pub lease_expires_at : Option ℕ
  pub created_at : ℕ

-- What the scheduler reads of a row of the table assets.
pub record Asset : Type 0 where
  pub id : ℕ
  pub path : String
  pub is_image : Bool  -- type = 'image'
  pub deleted : Bool  -- deleted_at IS NOT NULL
  pub offline : Bool
  pub mtime_ns : Option ℕ
  pub size : Option ℕ

pub record Catalog : Type 0 where
  pub derivatives : List Derivative
  pub jobs : List Job
  pub next_derivative : ℕ
  pub next_job : ℕ
  pub assets : List Asset
  pub now : ℕ  -- julianday('now') in this transaction

abbrev pub same_identity : Identity → Identity → Bool
same_identity a b =
    (a.asset_id == b.asset_id)
    && (str_eq a.kind b.kind
        && (str_eq a.variant b.variant
            && ((a.source_mtime_ns == b.source_mtime_ns) && (a.source_size == b.source_size))))

abbrev pub same_path : Option String → Option String → Bool
same_path (some a) (some b) = str_eq a b
same_path _ _ = false

abbrev pub is_ready : Status → Bool
is_ready ready = true
is_ready _ = false

abbrev pub is_evicted : Status → Bool
is_evicted evicted = true
is_evicted _ = false

abbrev pub is_skipped : Status → Bool
is_skipped skipped = true
is_skipped _ = false

-- state IN ('queued', 'running')
abbrev pub is_active : JobState → Bool
is_active JobState.queued = true
is_active JobState.running = true
is_active _ = false

-- SELECT ... WHERE id = ?
unfoldable pub find_id : ℕ → List Derivative → Option Derivative
find_id i [] = none
find_id i (d ∷ rest) = if d.id == i then some d else find_id i rest

-- SELECT ... WHERE asset_id = ? AND kind = ? AND variant = ? AND source_mtime_ns = ? AND source_size = ?
unfoldable pub find_identity : Identity → List Derivative → Option Derivative
find_identity k [] = none
find_identity k (d ∷ rest) = if same_identity d.identity k then some d else find_identity k rest

-- UPDATE asset_derivatives SET ... WHERE id = ?
unfoldable pub update_id : ℕ → (Derivative → Derivative) → List Derivative → List Derivative
update_id i f [] = []
update_id i f (d ∷ rest) =
    let below = update_id i f rest in if d.id == i then f d ∷ rest else d ∷ below

-- SELECT ... WHERE derivative_id = ? ORDER BY id DESC LIMIT 1
unfoldable pub latest_job : ℕ → List Job → Option Job
latest_job i [] = none
latest_job i (j ∷ rest) = if j.derivative_id == i then some j else latest_job i rest

-- ... AND state IN ('queued', 'running')
unfoldable pub active_job : ℕ → List Job → Option Job
active_job i [] = none
active_job i (j ∷ rest) =
    if j.derivative_id == i && is_active j.state then some j else active_job i rest

-- UPDATE derivative_jobs SET ... WHERE id = ?
unfoldable pub update_job : ℕ → (Job → Job) → List Job → List Job
update_job i f [] = []
update_job i f (j ∷ rest) =
    let below = update_job i f rest in if j.id == i then f j ∷ rest else j ∷ below

-- SELECT count(*) FROM derivative_jobs WHERE derivative_id = ? AND state IN ('queued', 'running')
unfoldable pub active_count : ℕ → List Job → ℕ
active_count i [] = 0
active_count i (j ∷ rest) =
    active_count i rest + (if j.derivative_id == i && is_active j.state then 1 else 0)

abbrev pub or_zero : Option ℕ → ℕ
or_zero none = 0
or_zero (some n) = n

-- The bytes of a row that count: SUM(byte_size) skips NULL, and only rows with status 'ready' count.
unfoldable pub held : Derivative → ℕ
held d = if is_ready d.status then or_zero d.byte_size else 0

unfoldable pub ready_bytes : List Derivative → ℕ
ready_bytes [] = 0
ready_bytes (d ∷ rest) = ready_bytes rest + held d

-- The join of a job with its derivative, WHERE d.status != 'ready'.
abbrev pub not_ready : Option Derivative → Bool
not_ready none = false
not_ready (some d) = not (is_ready d.status)

unfoldable pub reserving_jobs : List Derivative → List Job → ℕ
reserving_jobs rows [] = 0
reserving_jobs rows (j ∷ rest) =
    reserving_jobs rows rest
    + (if is_active j.state && not_ready (find_id j.derivative_id rows) then 1 else 0)
