-- ===== src/Counters/Scenarios.antt =====
-- The theorems on the runtime counters at concrete tables, and runs of the code there.
use gallery.Base.{ℕ, ◌≡◌, refl, true, false, none, some, List, [], ◌∷◌}
use gallery.Base.Text.{Text, codes, same}
use gallery.Base.Int.{ℤ, pos, negsuc, ◌+ℤ◌, ◌-ℤ◌}
use gallery.Counters.Tables.{
  JobRow, DerivativeRow, Database, metadata_states, compute_counters, count, total, get,
  read_counters, held, metadata_counter_name, ready_bytes_counter,
}
use gallery.Counters.Triggers.{
  Change, insert_job, delete_job, update_job, insert_derivative, delete_derivative,
  update_derivative, apply_all, apply, find, drop_derivative, fire, set_state, replace, drop_job,
  set_derivative, same_size, bump, state_changed, remove,
}
use gallery.Counters.Reads.{
  metadata_job_state_counts, derivative_ready_bytes, get_or, verify_runtime_counters,
  ensure_runtime_counters, needs_backfill, drifts,
}
use gallery.Counters.Bumps.{get→Holds}
use gallery.Counters.Kept.{Exact}
use gallery.Counters.Upserts.{get-compute_counters, get-compute_bytes}
use gallery.Counters.Repair.{counts_of, reads_current}
use gallery.Counters.Backfill.{
  with_counters, verify_runtime_counters-Exact, ensure_runtime_counters-Exact,
}

abbrev job : ℕ → Text → JobRow
job i s = record { id = i; state = s }

abbrev image : ℕ → Text → ℕ → DerivativeRow
image i s n = record { id = i; status = s; byte_size = some (pos n) }

-- Two jobs and two images, with no counters and no triggers yet.
abbrev old_catalog : Database
old_catalog = record {
  jobs = job 1 (codes "queued") ∷ job 2 (codes "done") ∷ [];
  derivatives = image 1 (codes "ready") 40 ∷ image 2 (codes "pending") 7 ∷ [];
  counters = none;
  installed = λ t. false;
}

abbrev catalog : Database
catalog = record old_catalog {
  counters = some (compute_counters old_catalog);
  installed = λ t. true;
}

catalog-Exact : Exact catalog
catalog-Exact = record {
  installed = λ t. refl;
  states = λ s m. get→Holds _ _ _ (get-compute_counters s old_catalog m);
  bytes = get→Holds _ _ _ (get-compute_bytes old_catalog);
}

abbrev changes : List Change
changes =
    update_job 1 (some (codes "running"))
    ∷ insert_job (job 3 (codes "queued"))
    ∷ delete_job 2
    ∷ update_derivative 2 (some (codes "ready")) none
    ∷ update_derivative 1 none (some none)
    ∷ insert_derivative (image 3 (codes "ready") 5)
    ∷ delete_derivative 3
    ∷ []

reads_current_example :
    (metadata_job_state_counts (apply_all changes catalog)
      ≡ counts_of (λ s. count s (apply_all changes catalog).jobs) metadata_states)
    × (derivative_ready_bytes (apply_all changes catalog)
        ≡ total (apply_all changes catalog).derivatives)
reads_current_example = reads_current changes catalog catalog-Exact

bytes_after_changes : derivative_ready_bytes (apply_all changes catalog) ≡ pos 7
unfolding derivative_ready_bytes get_or get read_counters apply_all apply find drop_derivative fire
    set_state replace drop_job set_derivative same same_size bump state_changed ◌+ℤ◌ ◌-ℤ◌
    compute_counters count held metadata_counter_name ready_bytes_counter total remove
bytes_after_changes = refl

-- One counter is wrong, one negative, and five are missing.
verify_runtime_counters-Exact_example :
    (after : List (Text × ℤ)) × (verify_runtime_counters true (
        with_counters catalog
          ((codes "metadata_jobs.done", pos 9) ∷ (codes "derivative_ready_bytes", negsuc 3) ∷ []))
      ≡ some (
        drifts
            (compute_counters catalog)
            ((codes "metadata_jobs.done", pos 9) ∷ (codes "derivative_ready_bytes", negsuc 3) ∷ []),
        with_counters catalog after,
      ))
    × Exact (with_counters catalog after)
    × (verify_runtime_counters true (with_counters catalog after)
        ≡ some ([], with_counters catalog after))
verify_runtime_counters-Exact_example =
    verify_runtime_counters-Exact catalog
      ((codes "metadata_jobs.done", pos 9) ∷ (codes "derivative_ready_bytes", negsuc 3) ∷ [])
      (λ t. refl)

needs_backfill_old : needs_backfill old_catalog ≡ true
unfolding needs_backfill
needs_backfill_old = refl

ensure_runtime_counters-Exact_example :
    (after : Database) × (ensure_runtime_counters old_catalog ≡ some after)
    × Exact after
    × (after.jobs ≡ old_catalog.jobs)
    × (after.derivatives ≡ old_catalog.derivatives)
ensure_runtime_counters-Exact_example =
    ensure_runtime_counters-Exact old_catalog (λ e. cc (e, needs_backfill_old))
