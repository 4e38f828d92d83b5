-- ===== src/Counters/Tables.antt =====
-- The counted tables and the stored counters, and compute_counters of
-- backend/metadata_store/runtime_counters.py. The other columns of a row play no part here.
use gallery.Base.{ℕ, ◌+◌, Bool, Option, none, some, List, [], ◌∷◌, ◌++◌, map, if◌then◌else◌}
use gallery.Base.Text.{Text, codes, same}
use gallery.Base.Int.{ℤ, pos, ◌+ℤ◌}

-- A row of metadata_index_jobs by its rowid; the state is free text.
pub record JobRow : Type 0 where
  pub id : ℕ
  pub state : Text

-- A row of asset_derivatives; byte_size may be NULL.
pub record DerivativeRow : Type 0 where
  pub id : ℕ
  pub status : Text
  pub byte_size : Option ℤ

pub data Trigger : Type 0 where
  mij_insert mij_delete mij_state ready_insert ready_delete ready_update : Trigger

-- `counters` is `none` while the table does not exist.
pub record Database : Type 0 where
  pub jobs : List JobRow
  pub derivatives : List DerivativeRow
  pub counters : Option (List (Text × ℤ))
  pub installed : Trigger → Bool

abbrev pub metadata_states : List Text
metadata_states =
    codes "queued"
    ∷ codes "running"
    ∷ codes "done"
    ∷ codes "stale"
    ∷ codes "failed"
    ∷ codes "skipped"
    ∷ []

unfoldable pub metadata_counter_name : Text → Text
metadata_counter_name s = codes "metadata_jobs." ++ s

unfoldable pub ready_bytes_counter : Text
ready_bytes_counter = codes "derivative_ready_bytes"

unfoldable pub counter_names : List Text
counter_names = map metadata_counter_name metadata_states ++ ready_bytes_counter ∷ []

-- SELECT count(*) ... WHERE state = s: the group of `s`, which is 0 when the group is empty.
unfoldable pub count : Text → List JobRow → ℕ
count s [] = 0
count s (j ∷ js) = (if same j.state s then 1 else 0) + count s js

abbrev pub coalesce_size : Option ℤ → ℤ
coalesce_size none = pos 0
coalesce_size (some n) = n

abbrev pub is_ready : DerivativeRow → Bool
is_ready r = same r.status (codes "ready")

-- What a row adds to the sum over the ready rows.
unfoldable pub held : DerivativeRow → ℤ
held r = if is_ready r then coalesce_size r.byte_size else pos 0

-- SELECT COALESCE(sum(byte_size), 0) ... WHERE status = 'ready'.
unfoldable pub total : List DerivativeRow → ℤ
total [] = pos 0
total (r ∷ rs) = held r +ℤ total rs

unfoldable pub compute_counters : Database → List (Text × ℤ)
unfolding metadata_counter_name
compute_counters d =
    map (λ (s : Text). (metadata_counter_name s, pos (count s d.jobs))) metadata_states
    ++ (ready_bytes_counter, total d.derivatives) ∷ []

-- A lookup by name; a dict that read_counters builds is used in no other way.
unfoldable pub get : Text → List (Text × ℤ) → Option ℤ
get k [] = none
get k ((n, v) ∷ cs) = if same n k then some v else get k cs

unfoldable pub read_counters : Database → List (Text × ℤ)
read_counters d = elim d.counters [ none ↦ [] | some cs ↦ cs ]
