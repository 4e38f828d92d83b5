-- ===== src/Derivatives/Supersede.antt =====
-- `_retire_superseded_in_txn` of backend/derivative_scheduler/supersede.py: ready rows whose source has
-- changed are retired, with their jobs. `selected` says which assets are in the scope of the call; the
-- statements that the code runs for 400 ids at a time are run for all of them.
use text.Mathlib.Text.{◌==◌ as str_eq}
use Prim.Native.String.{String}
use gallery.Base.{
  ℕ, ◌+◌, Bool, true, false, not, ◌&&◌, ◌||◌, Option, none, some, List, [], ◌∷◌, ◌++◌, ◌==◌, take,
  if◌then◌else◌,
}
use gallery.Derivatives.Catalog.{
  Status, JobState, Derivative, Job, Asset, Catalog, is_ready, is_active, latest_job,
}
use gallery.Derivatives.Ledger.{Ledger, ready_row_left}
use gallery.Derivatives.Claims.{update_where, find_asset}
use gallery.Derivatives.Claims.Fence.{unclaimed}

abbrev superseded_code : String
superseded_code = "source_superseded"

abbrev superseded_message : String
superseded_message = "superseded: source identity changed"

-- a.mtime_ns IS NOT NULL AND a.size IS NOT NULL AND one of them is not the row's
source_moved : Derivative → Option ℕ → Option ℕ → Bool
source_moved d (some mtime) (some size) =
    not (d.source_mtime_ns == mtime) || not (d.source_size == size)
source_moved d _ _ = false

unfoldable pub is_superseded : (Asset → Bool) → Catalog → Derivative → Bool
unfolding source_moved
is_superseded selected c d = is_ready d.status && elim (find_asset d.asset_id c.assets) [
  | none ↦ false
  | some a ↦ (not a.deleted && not a.offline) && (source_moved d a.mtime_ns a.size && selected a)
]

-- ORDER BY d.id: the table has the newest row first.
unfoldable pub superseded_rows : (Asset → Bool) → Catalog → List Derivative → List Derivative
superseded_rows selected c [] = []
superseded_rows selected c (d ∷ rest) =
    let older = superseded_rows selected c rest in
    if is_superseded selected c d then older ++ d ∷ [] else older

limited : Option ℕ → List Derivative → List Derivative
limited none rows = rows
limited (some n) rows = take n rows

abbrev is_id_of : List Derivative → ℕ → Bool
is_id_of [] i = false
is_id_of (d ∷ rest) i = (d.id == i) || is_id_of rest i

-- The first UPDATE.
unfoldable pub retire_rows : List Derivative → List Derivative → List Derivative
retire_rows retired [] = []
retire_rows retired (d ∷ rest) =
    (if is_id_of retired d.id && is_ready d.status
      then record d {
        status = Status.skipped;
        cache_path = none;
        byte_size = none;
        last_error = some superseded_message;
      }
      else d)
    ∷ retire_rows retired rest

abbrev is_done : JobState → Bool
is_done JobState.done = true
is_done _ = false

-- The second.
abbrev pub retires_job : List Derivative → Job → Bool
retires_job retired j = is_id_of retired j.derivative_id && (is_active j.state || is_done j.state)

abbrev pub set_superseded : Job → Job
set_superseded j = record (unclaimed j) {
  state = JobState.skipped;
  result_code = some superseded_code;
  error = some superseded_message;
}

-- A row of the INSERT.
abbrev pub superseded_job : ℕ → ℕ → ℕ → Job
superseded_job id i now = record {
  id = id;
  derivative_id = i;
  priority = 3;
  state = JobState.skipped;
  attempts = 0;
  error = some superseded_message;
  result_code = some superseded_code;
  claimed_by = none;
  claim_token = none;
  lease_expires_at = none;
  created_at = now;
}

abbrev has_superseded : Option Job → Bool
has_superseded none = false
has_superseded (some j) = elim j.result_code [
  | none ↦ false
  | some code ↦ str_eq code superseded_code
]

abbrev pub push_job : ℕ → Catalog → Catalog
push_job i c = record c {
  jobs = superseded_job c.next_job i c.now ∷ c.jobs;
  next_job = c.next_job + 1;
}

-- NOT EXISTS a latest job with that result code.
unfoldable pub note_superseded : List Derivative → Catalog → Catalog
note_superseded [] c = c
note_superseded (d ∷ rest) c =
    note_superseded rest (if has_superseded (latest_job d.id c.jobs) then c else push_job d.id c)

leave_each : List Derivative → Ledger → Ledger
leave_each [] l = l
leave_each (d ∷ rest) l = leave_each rest (ready_row_left d.byte_size l)

report : List Derivative → Option Ledger → Option Ledger
report retired none = none
report retired (some l) = some (leave_each retired l)

unfoldable pub retire_superseded :
    (Asset → Bool) → Option ℕ → Catalog → Option Ledger → List Derivative × Catalog × Option Ledger
unfolding limited leave_each report
retire_superseded selected limit c ledger =
    let retired = limited limit (superseded_rows selected c c.derivatives) in
    (
      retired,
      note_superseded retired (record c {
        derivatives = retire_rows retired c.derivatives;
        jobs = update_where (retires_job retired) set_superseded c.jobs;
      }),
      report retired ledger,
    )
