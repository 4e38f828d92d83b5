-- ===== src/Derivatives/Claims.antt =====
-- backend/derivative_scheduler/execution.py: how a worker claims a job, and the fenced writes that end or
-- keep its claim. Each is one op of the database writer. `token` is `uuid.uuid4().hex`, `lease` the
-- configured lease in ticks.
pub mod Fence
pub mod Recovery
pub mod Terminal
pub mod Runs
pub mod Keys
pub mod Attempts
pub mod Limit
pub mod Bounded
pub mod Stale
pub mod Once
pub mod Ended
use text.Mathlib.Text.{◌==◌ as str_eq}
use Prim.Native.String.{String}
use gallery.Base.{
  ℕ, ◌+◌, Bool, true, false, not, ◌&&◌, ◌||◌, Option, none, some, List, [], ◌∷◌, ◌==◌, ltb, leb,
  take, if◌then◌else◌,
}
use gallery.Derivatives.Catalog.{
  Status, JobState, Derivative, Job, Asset, Catalog, find_id, update_id,
}

-- The row that a claim hands to its worker.
pub record Claim : Type 0 where
  pub job_id : ℕ
  pub job_attempts : ℕ
  pub id : ℕ  -- of the derivative
  pub asset_id : ℕ
  pub source_mtime_ns : ℕ
  pub source_size : ℕ
  pub source_path : String
  pub claimed_by : String
  pub claim_token : String

abbrev pub max_attempts : ℕ
max_attempts = 3

abbrev pub is_queued : JobState → Bool
is_queued JobState.queued = true
is_queued _ = false

abbrev pub is_running : JobState → Bool
is_running JobState.running = true
is_running _ = false

abbrev pub same_token : Option String → String → Bool
same_token none token = false
same_token (some t) token = str_eq t token

-- UPDATE derivative_jobs SET ... WHERE ..., and its rowcount.
unfoldable pub update_where : (Job → Bool) → (Job → Job) → List Job → List Job
update_where p f [] = []
update_where p f (j ∷ rest) = (if p j then f j else j) ∷ update_where p f rest

unfoldable pub row_count : (Job → Bool) → List Job → ℕ
row_count p [] = 0
row_count p (j ∷ rest) = row_count p rest + (if p j then 1 else 0)

unfoldable pub find_asset : ℕ → List Asset → Option Asset
find_asset i [] = none
find_asset i (a ∷ rest) = if a.id == i then some a else find_asset i rest

abbrev same_number : Option ℕ → ℕ → Bool
same_number none n = false
same_number (some m) n = m == n

-- a.type = 'image' AND a.deleted_at IS NULL AND a.offline = 0, and the source is the one queued.
unfoldable pub is_current : Derivative → Asset → Bool
is_current d a =
    (a.is_image && not a.deleted)
    && (not a.offline
        && (same_number a.mtime_ns d.source_mtime_ns && same_number a.size d.source_size))

-- The join of a job with its derivative and its asset.
unfoldable pub joined : Catalog → Job → Option (Derivative × Asset)
joined c j = elim (find_id j.derivative_id c.derivatives) [
  | none ↦ none
  | some d ↦ elim (find_asset d.asset_id c.assets) [ none ↦ none | some a ↦ some (d, a) ]
]

unfoldable pub is_runnable : Catalog → Job → Bool
is_runnable c j =
    is_queued j.state && elim (joined c j) [ none ↦ false | some row ↦ is_current row.0 row.1 ]

-- ORDER BY j.priority ASC, j.created_at ASC, j.id ASC
unfoldable pub before : Job → Job → Bool
before j k =
    ltb j.priority k.priority
    || ((j.priority == k.priority)
        && (ltb j.created_at k.created_at || ((j.created_at == k.created_at) && ltb j.id k.id)))

insert_ordered : Job → List Job → List Job
insert_ordered j [] = j ∷ []
insert_ordered j (k ∷ rest) =
    let later = insert_ordered j rest in if before j k then j ∷ k ∷ rest else k ∷ later

unfoldable pub select_ordered : (Job → Bool) → List Job → List Job
unfolding insert_ordered
select_ordered p [] = []
select_ordered p (j ∷ rest) =
    let others = select_ordered p rest in if p j then insert_ordered j others else others

-- UPDATE derivative_jobs SET state = 'running', ... WHERE id = ? AND state = 'queued'
abbrev pub queued_as : ℕ → Job → Bool
queued_as i j = (j.id == i) && is_queued j.state

abbrev pub set_claimed : ℕ → String → String → ℕ → Job → Job
set_claimed attempts worker token expires j = record j {
  state = JobState.running;
  attempts = attempts;
  error = none;
  result_code = none;
  claimed_by = some worker;
  claim_token = some token;
  lease_expires_at = some expires;
}

-- The UPDATE of the job, and with that of its derivative the writes of one claim.
unfoldable pub take_job : String → String → ℕ → Job → Catalog → Catalog
take_job worker token lease j c = record c {
  jobs =
      update_where (queued_as j.id) (set_claimed (j.attempts + 1) worker token (c.now + lease))
        c.jobs;
}

unfoldable pub claim_row : String → String → ℕ → Job → Catalog → Catalog
unfolding take_job
claim_row worker token lease j c = record (take_job worker token lease j c) {
  derivatives =
      update_id j.derivative_id
        (λ d. record d { status = Status.running; attempts = j.attempts + 1 }) c.derivatives;
}

-- The row that is read back.
unfoldable pub claim_of : String → String → Job → Derivative × Asset → Claim
claim_of worker token j (d, a) = record {
  job_id = j.id;
  job_attempts = j.attempts + 1;
  id = d.id;
  asset_id = d.asset_id;
  source_mtime_ns = d.source_mtime_ns;
  source_size = d.source_size;
  source_path = a.path;
  claimed_by = worker;
  claim_token = token;
}

-- `_claim_job`, without its siblings: the runnable job that comes first, and the tables after it.
unfoldable pub first_of : String → String → ℕ → Catalog → List Job → Option (Claim × Catalog)
first_of worker token lease c [] = none
first_of worker token lease c (j ∷ _) = elim (joined c j) [
  | none ↦ none
  | some row ↦ some (claim_of worker token j row, claim_row worker token lease j c)
]

unfoldable pub claim_job : String → String → ℕ → Catalog → Option (Claim × Catalog)
claim_job worker token lease c =
    first_of worker token lease c (select_ordered (is_runnable c) c.jobs)

is_queued_row : Status → Bool
is_queued_row Status.queued = true
is_queued_row _ = false

find_job : ℕ → List Job → Option Job
find_job i [] = none
find_job i (j ∷ rest) = if j.id == i then some j else find_job i rest

-- j.priority <= 1 OR (SELECT priority FROM derivative_jobs WHERE id = ?) >= 2
shares_lane : Job → Option Job → Bool
shares_lane j none = leb j.priority 1
shares_lane j (some leader) = leb j.priority 1 || leb 2 leader.priority

-- `_SIBLING_PROBE_SQL`: a queued job of another variant of the leader's source.
unfoldable pub is_sibling : Claim → Catalog → Job → Bool
unfolding is_queued_row find_job shares_lane
is_sibling leader c j =
    is_queued j.state
    && (elim (joined c j) [
      | none ↦ false
      | some row ↦
          ((row.0.asset_id == leader.asset_id) && not (row.0.id == leader.id))
          && (((row.0.source_mtime_ns == leader.source_mtime_ns)
                && (row.0.source_size == leader.source_size))
              && (is_queued_row row.0.status && is_current row.0 row.1))
    ]
        && shares_lane j (find_job leader.job_id c.jobs))

claim_of_joined : String → String → Job → Option (Derivative × Asset) → List Claim → List Claim
claim_of_joined worker token j none rest = rest
claim_of_joined worker token j (some row) rest = claim_of worker token j row ∷ rest

-- Each of the selected rows under a token of its own; a row that is not queued any more is passed over.
unfoldable pub claim_each :
    String → (ℕ → String) → ℕ → ℕ → List Job → Catalog → List Claim × Catalog
unfolding claim_of_joined
claim_each worker tokens lease n [] c = ([], c)
claim_each worker tokens lease n (j ∷ rest) c =
    let c' = claim_row worker (tokens n) lease j c in
    let taken = claim_each worker tokens lease (n + 1) rest c' in
    let passed =
      claim_each worker tokens lease (n + 1) rest (take_job worker (tokens n) lease j c) in
    if row_count (queued_as j.id) c.jobs == 1
    then (claim_of_joined worker (tokens n) j (joined c j) taken.0, taken.1)
    else passed

abbrev max_batch_siblings : ℕ
max_batch_siblings = 8

-- `_claim_siblings_conn`
unfoldable pub claim_siblings : (ℕ → String) → ℕ → Claim → Catalog → List Claim × Catalog
claim_siblings tokens lease leader c =
    claim_each leader.claimed_by tokens lease 0
      (take max_batch_siblings (select_ordered (is_sibling leader c) c.jobs)) c
