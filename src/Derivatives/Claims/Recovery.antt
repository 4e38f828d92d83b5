-- ===== src/Derivatives/Claims/Recovery.antt =====
-- backend/derivative_scheduler/recovery.py: abandoned claims, and queued jobs whose source is gone. The rows
-- and the checks of their files are read before the write, which the token fences. `stat` gives the
-- modification time and the size of a file that is there.
use text.Mathlib.Text.{◌==◌ as str_eq}
use Prim.Native.String.{String}
use gallery.Base.{
  ℕ, ◌+◌, Bool, true, false, not, ◌&&◌, ◌||◌, Option, none, some, List, [], ◌∷◌, ◌==◌, leb,
  if◌then◌else◌,
}
use gallery.Derivatives.Catalog.{JobState, Derivative, Job, Asset, Catalog, find_id}
use gallery.Derivatives.Claims.{max_attempts, is_running, same_token, find_asset}
use gallery.Derivatives.Claims.Fence.{fenced, set_ended, as_status}

-- Which claims a recovery looks at.
pub data Scope : Type 0 where
  all_claims : Scope
  claims_of : String → Scope  -- claimed_by = ?
  expired : Scope  -- lease_expires_at IS NULL OR lease_expires_at <= julianday('now')

is_expired : ℕ → Option ℕ → Bool
is_expired now none = true
is_expired now (some t) = leb t now

unfoldable pub in_scope : Scope → ℕ → Job → Bool
unfolding is_expired
in_scope all_claims now j = is_running j.state
in_scope (claims_of worker) now j = is_running j.state && same_token j.claimed_by worker
in_scope expired now j = is_running j.state && is_expired now j.lease_expires_at

differs : Option ℕ → ℕ → Bool
differs none n = true
differs (some m) n = not (m == n)

-- `_inapplicable_result`, of a job's derivative and its asset if it has one.
unfoldable pub inapplicable_result :
    (String → Option (ℕ × ℕ)) → Derivative → Option Asset → Option String
unfolding differs
inapplicable_result stat d none = some "asset_inactive"
inapplicable_result stat d (some a) =
    if a.deleted || (a.offline || not a.is_image)
    then some "asset_inactive"
    else elim (stat a.path) [
      | none ↦ some "source_missing"
      | some found ↦
          if (not (found.0 == d.source_mtime_ns) || not (found.1 == d.source_size))
            || (differs a.mtime_ns d.source_mtime_ns || differs a.size d.source_size)
          then some "source_changed"
          else none
    ]

-- What was decided of one row.
pub record Decision : Type 0 where
  pub job_id : ℕ
  pub claim_token : Option String
  pub derivative_id : ℕ
  pub state : JobState
  pub result_code : Option String

unfoldable pub decide_row : Job → ℕ → Option String → Decision
decide_row j i (some code) = record {
  job_id = j.id;
  claim_token = j.claim_token;
  derivative_id = i;
  state = JobState.skipped;
  result_code = some code;
}
decide_row j i none =
    if leb max_attempts j.attempts
    then record {
      job_id = j.id;
      claim_token = j.claim_token;
      derivative_id = i;
      state = JobState.failed;
      result_code = some "attempts_exhausted";
    }
    else record {
      job_id = j.id;
      claim_token = j.claim_token;
      derivative_id = i;
      state = JobState.queued;
      result_code = none;
    }

unfoldable pub decide_joined :
    (String → Option (ℕ × ℕ)) → Catalog → Job → Option Derivative → List Decision → List Decision
decide_joined stat c j none rest = rest
decide_joined stat c j (some d) rest =
    decide_row j d.id (inapplicable_result stat d (find_asset d.asset_id c.assets)) ∷ rest

-- The rows of the SELECT, each with its decision.
unfoldable pub decisions : (String → Option (ℕ × ℕ)) → Scope → Catalog → List Job → List Decision
unfolding decide_joined
decisions stat scope c [] = []
decisions stat scope c (j ∷ rest) =
    let more = decisions stat scope c rest in
    if in_scope scope c.now j
    then decide_joined stat c j (find_id j.derivative_id c.derivatives) more
    else more

-- claim_token IS ?, which takes NULL for NULL
unfoldable pub is_token : Option String → Option String → Bool
is_token none none = true
is_token (some t) (some u) = str_eq t u
is_token _ _ = false

is_expired_scope : Scope → Bool
is_expired_scope expired = true
is_expired_scope _ = false

unfoldable pub still_abandoned : Scope → ℕ → Decision → Job → Bool
unfolding is_token is_expired is_expired_scope
still_abandoned scope now v j =
    ((j.id == v.job_id) && (is_running j.state && is_token j.claim_token v.claim_token))
    && (not (is_expired_scope scope) || is_expired now j.lease_expires_at)

unfoldable pub recover_row : Scope → String → Decision → Catalog → Bool × Catalog
recover_row scope message v c =
    fenced (still_abandoned scope c.now v) (set_ended v.state v.result_code message) v.derivative_id
      (λ d. record d { status = as_status v.state; last_error = some message }) c

-- `recover`; `message` stands for the text of each decision.
unfoldable pub recover : Scope → (Decision → String) → List Decision → Catalog → ℕ × Catalog
recover scope message [] c = (0, c)
recover scope message (v ∷ rest) c =
    let (done, c') = recover_row scope (message v) v c in
    let (more, c'') = recover scope message rest c' in ((if done then more + 1 else more), c'')
