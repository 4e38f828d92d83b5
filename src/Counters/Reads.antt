-- ===== src/Counters/Reads.antt =====
-- The readers, verify_runtime_counters and _ensure_runtime_counters.
use gallery.Base.{
  Bool, true, false, not, ◌&&◌, ◌||◌, Option, none, some, List, [], ◌∷◌, ◌++◌, if◌then◌else◌,
}
use gallery.Base.Text.{Text, same}
use gallery.Base.Int.{ℤ, pos, negsuc, eqb_ℤ, nonneg}
use gallery.Counters.Tables.{
  Trigger, mij_insert, mij_delete, mij_state, ready_insert, ready_delete, ready_update, Database,
  metadata_states, metadata_counter_name, ready_bytes_counter, counter_names, compute_counters, get,
  read_counters,
}

-- dict.get with a default.
unfoldable pub get_or : Text → ℤ → List (Text × ℤ) → ℤ
get_or k v cs = elim (get k cs) [ none ↦ v | some w ↦ w ]

unfoldable pub all_usable : List Text → List (Text × ℤ) → Bool
all_usable [] stored = true
all_usable (s ∷ ss) stored =
    nonneg (get_or (metadata_counter_name s) (negsuc 0) stored) && all_usable ss stored

-- The counts by state, from a dict that has each name.
abbrev pub by_state : List (Text × ℤ) → List Text → List (Text × ℤ)
by_state cs [] = []
by_state cs (s ∷ ss) = (s, get_or (metadata_counter_name s) (pos 0) cs) ∷ by_state cs ss

unfoldable pub metadata_job_state_counts : Database → List (Text × ℤ)
unfolding metadata_counter_name
metadata_job_state_counts d =
    if all_usable metadata_states (read_counters d)
    then by_state (read_counters d) metadata_states
    else by_state (compute_counters d) metadata_states

unfoldable pub derivative_ready_bytes : Database → ℤ
derivative_ready_bytes d =
    let stored = get_or ready_bytes_counter (negsuc 0) (read_counters d) in
    if nonneg stored then stored else get_or ready_bytes_counter (pos 0) (compute_counters d)

abbrev pub Drift : Type 0
Drift = List (Text × Option ℤ × ℤ)

-- stored.get(name) != value, where a missing name is None.
unfoldable pub differs : Option ℤ → ℤ → Bool
differs none v = true
differs (some w) v = not (eqb_ℤ w v)

unfoldable pub drifts : List (Text × ℤ) → List (Text × ℤ) → Drift
drifts [] stored = []
drifts ((n, v) ∷ actual) stored =
    let rest = drifts actual stored in
    if differs (get n stored) v then (n, get n stored, v) ∷ rest else rest

-- INSERT ... ON CONFLICT(name) DO UPDATE SET value = excluded.value.
unfoldable pub upsert : Text → ℤ → List (Text × ℤ) → List (Text × ℤ)
upsert k v [] = (k, v) ∷ []
upsert k v ((n, w) ∷ cs) = if same n k then (n, v) ∷ cs else (n, w) ∷ upsert k v cs

unfoldable pub upsert_each : Drift → List (Text × ℤ) → List (Text × ℤ)
upsert_each [] cs = cs
upsert_each ((n, _, v) ∷ rest) cs = upsert_each rest (upsert n v cs)

abbrev no_drift : Drift → Bool
no_drift [] = true
no_drift (x ∷ xs) = false

-- The drift and the database after it. Without the table the INSERT of a repair raises: `none`.
unfoldable pub report : Bool → Drift → Database → Option (Drift × Database)
unfolding no_drift
report repair drift d =
    if repair && not (no_drift drift)
    then (elim d.counters [
      | none ↦ none
      | some cs ↦ some (drift, record d { counters = some (upsert_each drift cs) })
    ])
    else some (drift, d)

unfoldable pub verify_runtime_counters : Bool → Database → Option (Drift × Database)
verify_runtime_counters repair d = report repair (drifts (compute_counters d) (read_counters d)) d

-- INSERT OR IGNORE INTO runtime_counters(name, value) VALUES (name, 0), for each name.
unfoldable pub insert_missing : List Text → List (Text × ℤ) → List (Text × ℤ)
insert_missing [] cs = cs
insert_missing (n ∷ ns) cs =
    insert_missing ns (elim (get n cs) [ none ↦ cs ++ (n, pos 0) ∷ [] | some v ↦ cs ])

unfoldable pub has_names : List Text → List (Text × ℤ) → Bool
has_names [] cs = true
has_names (n ∷ ns) cs = elim (get n cs) [ none ↦ false | some v ↦ has_names ns cs ]

unfoldable pub all_installed : (Trigger → Bool) → Bool
all_installed installed =
    installed mij_insert
    && installed mij_delete
    && installed mij_state
    && installed ready_insert
    && installed ready_delete
    && installed ready_update

abbrev pub table_exists : Database → Bool
table_exists d = elim d.counters [ none ↦ false | some cs ↦ true ]

unfoldable pub needs_backfill : Database → Bool
needs_backfill d =
    not (table_exists d)
    || not (has_names counter_names (read_counters d))
    || not (all_installed d.installed)

-- RUNTIME_COUNTERS_STATEMENTS: the table, its rows and its triggers, each unless it exists.
unfoldable pub run_statements : Database → Database
run_statements d = record d {
  counters = some (insert_missing counter_names (read_counters d));
  installed = λ t. true;
}

unfoldable pub ensure_runtime_counters : Database → Option Database
ensure_runtime_counters d =
    let d' = run_statements d in
    if needs_backfill d
    then (elim (verify_runtime_counters true d') [ none ↦ none | some (_, d'') ↦ some d'' ])
    else some d'
