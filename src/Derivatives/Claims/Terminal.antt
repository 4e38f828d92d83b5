-- ===== src/Derivatives/Claims/Terminal.antt =====
-- `_reconcile_queued_jobs` of backend/derivative_scheduler/recovery.py: a queued job whose source is gone or
-- changed ends as skipped. The rows are read before the write.
use Prim.Native.String.{String}
use gallery.Base.{ℕ, not, ◌||◌, Option, none, some, List, [], ◌∷◌, if◌then◌else◌}
use gallery.Derivatives.Catalog.{Status, JobState, Derivative, Job, Asset, Catalog, find_id}
use gallery.Derivatives.Claims.{is_queued, is_current, find_asset, queued_as}
use gallery.Derivatives.Claims.Fence.{fenced}

pub record Gone : Type 0 where
  pub job_id : ℕ
  pub derivative_id : ℕ
  pub result_code : String

-- The result code of a row, if the source is not the one that was queued.
unfoldable gone_code : Derivative → Option Asset → Option String
gone_code d none = some "asset_inactive"
gone_code d (some a) =
    if is_current d a
    then none
    else if a.deleted || (a.offline || not a.is_image)
    then some "asset_inactive"
    else some "source_changed"

gone_joined : Catalog → Job → Option Derivative → List Gone → List Gone
gone_joined c j none rest = rest
gone_joined c j (some d) rest = elim (gone_code d (find_asset d.asset_id c.assets)) [
  | none ↦ rest
  | some code ↦ record { job_id = j.id; derivative_id = d.id; result_code = code } ∷ rest
]

unfoldable gone_rows : Catalog → List Job → List Gone
unfolding gone_joined
gone_rows c [] = []
gone_rows c (j ∷ rest) =
    let more = gone_rows c rest in
    if is_queued j.state then gone_joined c j (find_id j.derivative_id c.derivatives) more else more

abbrev pub set_skipped : String → String → Job → Job
set_skipped code message j = record j {
  state = JobState.skipped;
  result_code = some code;
  error = some message;
}

unfoldable pub terminalize_row : String → Gone → Catalog → Catalog
terminalize_row message g c =
    (fenced (queued_as g.job_id) (set_skipped g.result_code message) g.derivative_id
      (λ d. record d { status = Status.skipped; last_error = some message }) c).1

-- `terminalize`; `message` stands for the text of each row.
unfoldable pub terminalize : (Gone → String) → List Gone → Catalog → Catalog
terminalize message [] c = c
terminalize message (g ∷ rest) c = terminalize message rest (terminalize_row (message g) g c)
