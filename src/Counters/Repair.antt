-- ===== src/Counters/Repair.antt =====
-- The readers, the repair and the backfill against the recomputed counters.
use gallery.Base.{
  ℕ, ◌≡◌, refl, inl, inr, Bool, true, false, some, List, [], ◌∷◌, if◌then◌else◌, Has,
}
use gallery.Base.Text.{Text}
use gallery.Base.Int.{ℤ, pos, negsuc, nonneg}
use gallery.Counters.Tables.{
  Database, metadata_states, metadata_counter_name, ready_bytes_counter, count, total,
  compute_counters, get, read_counters,
}
use gallery.Counters.Triggers.{Change, apply_all}
use gallery.Counters.Reads.{
  get_or, all_usable, by_state, metadata_job_state_counts, derivative_ready_bytes,
}
use gallery.Counters.Bumps.{Holds, Holds→get}
use gallery.Counters.Kept.{Exact, apply_all-Exact}
use gallery.Counters.Upserts.{get-compute_bytes}

stored_value :
    (k : Text) (v : ℤ) (d : Database) → Holds k v d.counters → get k (read_counters d) ≡ some v
unfolding read_counters
stored_value k v d h = Holds→get k v d.counters h

get_or-some : (k : Text) (v w : ℤ) (cs : List (Text × ℤ)) → get k cs ≡ some v → get_or k w cs ≡ v
unfolding get_or
get_or-some k v w cs h = rw (h, get_or) refl

-- SELECT state, count(*) ... for each of the states.
abbrev pub counts_of : (Text → ℕ) → List Text → List (Text × ℤ)
counts_of n [] = []
counts_of n (s ∷ ss) = (s, pos (n s)) ∷ counts_of n ss

-- Each of the states is counted.
abbrev Counted : (Text → ℕ) → List (Text × ℤ) → List Text → Type 0
Counted n stored ss =
    (s : Text) → Has s ss → get (metadata_counter_name s) stored ≡ some (pos (n s))

usable :
    (n : Text → ℕ) (stored : List (Text × ℤ)) (ss : List Text)
    → Counted n stored ss
    → all_usable ss stored ≡ true
unfolding all_usable
usable n stored [] h = refl
usable n stored (s ∷ ss) h =
    rw (get_or-some _ _ (negsuc 0) stored (h s (inl refl)))
      (usable n stored ss (λ t m. h t (inr m)))

counted :
    (n : Text → ℕ) (stored : List (Text × ℤ)) (ss : List Text)
    → Counted n stored ss
    → by_state stored ss ≡ counts_of n ss
counted n stored [] h = refl
counted n stored (s ∷ ss) h =
    rw (get_or-some _ _ (pos 0) stored (h s (inl refl)), counted n stored ss (λ t m. h t (inr m)))
      refl

-- A usable value is returned, and any other is recomputed.
bytes_read :
    (d : Database)
    → get ready_bytes_counter (read_counters d) ≡ some (total d.derivatives)
    → derivative_ready_bytes d ≡ total d.derivatives
unfolding derivative_ready_bytes
bytes_read d h =
    let stored : get_or ready_bytes_counter (negsuc 0) (read_counters d) ≡ total d.derivatives =
      get_or-some _ _ (negsuc 0) _ h in
    let computed : get_or ready_bytes_counter (pos 0) (compute_counters d) ≡ total d.derivatives =
      get_or-some _ _ (pos 0) _ (get-compute_bytes d) in
    rw (stored, computed) (if-same (nonneg (total d.derivatives)) (total d.derivatives))
  where
    if-same : (b : Bool) (v : ℤ) → (if b then v else v) ≡ v
    if-same true v = refl
    if-same false v = refl

reads :
    (d : Database)
    → Exact d
    → (metadata_job_state_counts d ≡ counts_of (λ s. count s d.jobs) metadata_states)
      × (derivative_ready_bytes d ≡ total d.derivatives)
unfolding metadata_job_state_counts
reads d x =
    let has : Counted (λ s. count s d.jobs) (read_counters d) metadata_states =
      λ s m. stored_value _ _ d (x.states s m) in
    (
      rw (usable _ _ metadata_states has) (counted _ _ metadata_states has),
      bytes_read d (stored_value _ _ d x.bytes),
    )

-- From a database with all triggers and right counters, after any sequence of changes of rows, the
-- readers return what the aggregate queries return on the rows of that moment: the number of jobs in
-- each of the six states, and the bytes of the ready derivatives.
pub reads_current :
    (cs : List Change) (d : Database)
    → Exact d
    → (metadata_job_state_counts (apply_all cs d)
        ≡ counts_of (λ s. count s (apply_all cs d).jobs) metadata_states)
      × (derivative_ready_bytes (apply_all cs d) ≡ total (apply_all cs d).derivatives)
reads_current cs d x = reads (apply_all cs d) (apply_all-Exact cs d x)
