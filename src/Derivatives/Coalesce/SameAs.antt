-- ===== src/Derivatives/Coalesce/SameAs.antt =====
-- Each write of `_coalesce_derivative_job`, with a `CapacityLedger` and without.
use gallery.Base.{
  ℕ, ◌+◌, ◌≡◌, refl, sym, subst, Bool, true, false, none, some, List, [], ◌∷◌, inl, inr, arith,
  if◌then◌else◌, Bool-cases,
}
use gallery.Derivatives.Catalog.{
  Derivative, Job, Catalog, is_ready, find_id, active_count, update_job, held, ready_bytes,
  reserving_jobs,
}
use gallery.Derivatives.Catalog.Tables.{
  find_id-update_id, ready_bytes-update_id, reserving_jobs-update_id, reserved,
}
use gallery.Derivatives.Ledger.{Ledger, ready_row_left, ready_row_restored, job_queued}
use gallery.Derivatives.Coalesce.Insert.{Agrees}
use gallery.Derivatives.Coalesce.{
  restore_row, defer_row, queue_row, raise_priority, Outcome, Coalesced, evicted_at, set_row,
  restore, defer, requeue, add_job,
}

-- The same result, with a ledger that still agrees.
pub record SameAs (x y : Coalesced) : Type 0 where
  pub derivative_id : x.derivative_id ≡ y.derivative_id
  pub outcome : x.outcome ≡ y.outcome
  pub catalog : x.catalog ≡ y.catalog
  pub ledger : (l : Ledger) × (x.ledger ≡ some l) × Agrees l x.catalog

module _ (d : Derivative) (f : Derivative → Derivative) (c : Catalog)
    (found : find_id d.id c.derivatives ≡ some d) (same : (f d).id ≡ d.id) where
  bytes_change :
      ready_bytes (set_row d.id f c).derivatives + held d ≡ ready_bytes c.derivatives + held (f d)
  unfolding set_row
  bytes_change = ready_bytes-update_id d.id f c.derivatives d found

  jobs_change :
      reserving_jobs (set_row d.id f c).derivatives (set_row d.id f c).jobs
        + reserved (some d) (active_count d.id c.jobs)
      ≡ reserving_jobs c.derivatives c.jobs + reserved (some (f d)) (active_count d.id c.jobs)
  unfolding set_row
  jobs_change = reserving_jobs-update_id d.id f c.derivatives c.jobs d found same

-- A row that leaves 'ready', or stays out of it, without active jobs.
left_row-Agrees :
    (d : Derivative) (f : Derivative → Derivative) (c : Catalog) (l : Ledger)
    → find_id d.id c.derivatives ≡ some d
    → (f d).id ≡ d.id
    → is_ready (f d).status ≡ false
    → active_count d.id c.jobs ≡ 0
    → Agrees l c
    → Agrees (if is_ready d.status then ready_row_left d.byte_size l else l) (set_row d.id f c)
unfolding held ready_row_left
left_row-Agrees d f c l found same out alone h =
    ground (arith, bytes_change d f c found same, jobs_change d f c found same)

restored_row-Agrees :
    (d : Derivative) (c : Catalog) (l : Ledger)
    → find_id d.id c.derivatives ≡ some d
    → evicted_at d.cache_path d ≡ true
    → Agrees l c
    → Agrees
        (ready_row_restored d.byte_size (active_count d.id c.jobs) l)
        (set_row d.id (restore d.cache_path) c)
unfolding held ready_row_restored
restored_row-Agrees d c l found hit h =
    let same : (restore d.cache_path d).id ≡ d.id = rw hit in
    ground (
      arith,
      bytes_change d (restore d.cache_path) c found same,
      jobs_change d (restore d.cache_path) c found same,
    )

kept_row-Agrees :
    (d : Derivative) (c : Catalog) (l : Ledger)
    → find_id d.id c.derivatives ≡ some d
    → evicted_at d.cache_path d ≡ false
    → Agrees l c
    → Agrees l (set_row d.id (restore d.cache_path) c)
kept_row-Agrees d c l found miss h =
    let same : (restore d.cache_path d).id ≡ d.id = rw miss in
    ground (
      arith,
      bytes_change d (restore d.cache_path) c found same,
      jobs_change d (restore d.cache_path) c found same,
    )

add_job-Agrees :
    (d : Derivative) (priority : ℕ) (c : Catalog) (l : Ledger)
    → find_id d.id c.derivatives ≡ some d
    → is_ready d.status ≡ false
    → Agrees l c
    → Agrees (job_queued l) (add_job d.id priority c)
unfolding add_job job_queued reserving_jobs
add_job-Agrees d priority c l found out h = ground (arith, found)

pub restore_row-SameAs :
    (d : Derivative) (c : Catalog) (l : Ledger)
    → find_id d.id c.derivatives ≡ some d
    → Agrees l c
    → SameAs (restore_row d c (some l)) (restore_row d c none)
unfolding restore_row
restore_row-SameAs d c l found h = elim (Bool-cases (evicted_at d.cache_path d)) [
  | inl hit ↦ record {
    derivative_id = refl;
    outcome = refl;
    catalog = refl;
    ledger = (_, rw (found, hit) refl, restored_row-Agrees d c l found hit h);
  }
  | inr miss ↦ record {
    derivative_id = refl;
    outcome = refl;
    catalog = refl;
    ledger = (l, rw (found, miss) refl, kept_row-Agrees d c l found miss h);
  }
]

pub defer_row-SameAs :
    (d : Derivative) (inserted : Bool) (c : Catalog) (l : Ledger)
    → find_id d.id c.derivatives ≡ some d
    → active_count d.id c.jobs ≡ 0
    → Agrees l c
    → SameAs (defer_row d inserted c (some l)) (defer_row d inserted c none)
unfolding defer_row
defer_row-SameAs d inserted c l found alone h = record {
  derivative_id = refl;
  outcome = refl;
  catalog = refl;
  ledger = (
    if is_ready d.status then ready_row_left d.byte_size l else l,
    ground arith,
    left_row-Agrees d defer c l found refl refl alone h,
  );
}

-- The insert of the job and the update of the row touch different tables.
add_job-set_row :
    (i priority : ℕ) (f : Derivative → Derivative) (c : Catalog)
    → set_row i f (add_job i priority c) ≡ add_job i priority (set_row i f c)
unfolding set_row add_job
add_job-set_row i priority f c = refl

pub queue_row-SameAs :
    (d : Derivative) (priority : ℕ) (inserted : Bool) (c : Catalog) (l : Ledger)
    → find_id d.id c.derivatives ≡ some d
    → active_count d.id c.jobs ≡ 0
    → Agrees l c
    → SameAs (queue_row d priority inserted c (some l)) (queue_row d priority inserted c none)
unfolding queue_row
queue_row-SameAs d priority inserted c l found alone h = record {
  derivative_id = refl;
  outcome = refl;
  catalog = refl;
  ledger = (
    job_queued left,
    ground arith,
    subst (Agrees (job_queued left)) (sym (add_job-set_row d.id priority requeue c)) (
        add_job-Agrees (requeue d) priority (set_row d.id requeue c) left now_queued refl
          (left_row-Agrees d requeue c l found refl refl alone h)),
  );
}
  where
    left : Ledger
    left = if is_ready d.status then ready_row_left d.byte_size l else l

    now_queued : find_id d.id (set_row d.id requeue c).derivatives ≡ some (requeue d)
    now_queued =
        unfold set_row in
        rw (find_id-update_id d.id d.id requeue c.derivatives d found refl) (ground arith)

pub SameAs-if :
    (b : Bool) {b' : Bool} {x y x' y' : Coalesced}
    → b ≡ b'
    → SameAs x y
    → SameAs x' y'
    → SameAs (if b then x else x') (if b' then y else y')
SameAs-if b {b'} {x} {y} {x'} {y'} e h k =
    rw e (elim b' as (λ c. SameAs (if c then x else x') (if c then y else y')) [
      | true ↦ h
      | false ↦ k
    ])

-- A change of priority leaves the aggregates alone.
reserving_jobs-update_job :
    (rows : List Derivative) (i priority : ℕ) (jobs : List Job)
    → reserving_jobs rows (update_job i (λ k. record k { priority = priority }) jobs)
      ≡ reserving_jobs rows jobs
unfolding reserving_jobs update_job
reserving_jobs-update_job rows i priority [] = refl
reserving_jobs-update_job rows i priority (j ∷ jobs) =
    ground (arith, reserving_jobs-update_job rows i priority jobs)

pub raise_priority-Agrees :
    (priority : ℕ) (j : Job) (c : Catalog) (l : Ledger)
    → Agrees l c
    → Agrees l (raise_priority priority j c)
unfolding raise_priority
raise_priority-Agrees priority j c l h =
    ground (arith, reserving_jobs-update_job c.derivatives j.id priority c.jobs)

pub unchanged-SameAs :
    (i : ℕ) (o : Outcome) (c : Catalog) (l : Ledger)
    → Agrees l c
    → SameAs
        (record { derivative_id = i; outcome = o; catalog = c; ledger = some l })
        (record { derivative_id = i; outcome = o; catalog = c; ledger = none })
unchanged-SameAs i o c l h = record {
  derivative_id = refl;
  outcome = refl;
  catalog = refl;
  ledger = (l, refl, h);
}
