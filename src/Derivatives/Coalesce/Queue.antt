-- ===== src/Derivatives/Coalesce/Queue.antt =====
-- What coalescing does to the jobs: nothing, a higher priority, or one new queued job.
use Prim.Native.String.{String}
use gallery.Base.{
  ℕ, ◌+◌, ◌≡◌, subst, Bool, true, false, ◌&&◌, ◌||◌, not, Option, none, some, List, ◌∷◌, ltb,
  if◌then◌else◌, Bool-cases, Option-cases, inl, inr, some-injective,
}
use gallery.Derivatives.Catalog.{
  JobState, Derivative, Job, Catalog, active_job, update_job, find_identity, is_ready, is_evicted,
}
use gallery.Derivatives.Coalesce.{
  Request, Coalesced, coalesce, coalesce_row, join_row, schedule_row, reserve_row, queue_row,
  defer_row, restore_row, raise_priority, add_job, set_row, insert_row, waits_for_capacity,
  has_file, stays_terminal, estimate_or,
}
use gallery.Derivatives.Ledger.{Ledger, capacity_available}

abbrev pub new_job : ℕ → ℕ → ℕ → ℕ → Job
new_job id i priority now = record {
  id = id;
  derivative_id = i;
  priority = priority;
  state = JobState.queued;
  attempts = 0;
  error = none;
  result_code = none;
  claimed_by = none;
  claim_token = none;
  lease_expires_at = none;
  created_at = now;
}

module _ (P : ℕ → List Job → Type 0)
    (adds : (n i priority now : ℕ) (jobs : List Job)
      → P n jobs
      → P (n + 1) (new_job n i priority now ∷ jobs))
    (raises : (n i priority : ℕ) (jobs : List Job)
      → P n jobs
      → P n (update_job i (λ j. record j { priority = priority }) jobs)) where
  abbrev Holds : Catalog → Type 0
  Holds c = P c.next_job c.jobs

  record HoldsAfter (x : Coalesced) : Type 0 where
    at : Holds x.catalog

  -- Each of the branches of `_coalesce_derivative_job`.
  either-Holds :
      (b : Bool) (x y : Coalesced) → HoldsAfter x → HoldsAfter y → HoldsAfter (if b then x else y)
  either-Holds true x y hx hy = hx
  either-Holds false x y hx hy = hy

  queue_row-Holds :
      (d : Derivative) (priority : ℕ) (inserted : Bool) (c : Catalog) (l : Option Ledger)
      → Holds c
      → HoldsAfter (queue_row d priority inserted c l)
  unfolding queue_row add_job set_row
  queue_row-Holds d priority inserted c l h = record {
    at = adds c.next_job d.id priority c.now c.jobs h;
  }

  defer_row-Holds :
      (d : Derivative) (inserted : Bool) (c : Catalog) (l : Option Ledger)
      → Holds c
      → HoldsAfter (defer_row d inserted c l)
  unfolding defer_row set_row
  defer_row-Holds d inserted c l h = record { at = h }

  schedule_row-Holds :
      (quota : ℕ) (q : Request) (d : Derivative) (inserted : Bool) (c : Catalog) (l : Option Ledger)
      → Holds c
      → HoldsAfter (schedule_row quota q d inserted c l)
  unfolding schedule_row reserve_row
  schedule_row-Holds quota q d inserted c l h =
      let room = capacity_available l c (estimate_or q.estimated_bytes c) quota in
      let waits = waits_for_capacity d.status in
      either-Holds (waits && (q.deferrable && not q.reconsider_deferred_capacity)) _ _
        (record { at = h })
        (either-Holds (inserted || (waits || q.deferrable)) _ _
          (either-Holds room.0 _ _ (queue_row-Holds d q.priority inserted c room.1 h)
            (defer_row-Holds d inserted c room.1 h))
          (queue_row-Holds d q.priority inserted c l h))

  raise_priority-Holds :
      (priority : ℕ) (j : Job) (c : Catalog) → Holds c → Holds (raise_priority priority j c)
  unfolding raise_priority
  raise_priority-Holds priority j c h = elim (Bool-cases (ltb priority j.priority)) [
    | inl sooner ↦ rw sooner (raises c.next_job j.id priority c.jobs h)
    | inr later ↦ rw later h
  ]

  join_row-Holds :
      (quota : ℕ) (q : Request) (d : Derivative) (inserted : Bool) (c : Catalog) (l : Option Ledger)
      → Holds c
      → HoldsAfter (join_row quota q d inserted c l)
  unfolding join_row
  join_row-Holds quota q d inserted c l h = elim (Option-cases (active_job d.id c.jobs)) [
    | inl idle ↦ rw (idle, join_row) (schedule_row-Holds quota q d inserted c l h)
    | inr (j, e) ↦ rw (e, join_row) (record { at = raise_priority-Holds q.priority j c h })
  ]

  restore_row-Holds :
      (d : Derivative) (c : Catalog) (l : Option Ledger) → Holds c → HoldsAfter (restore_row d c l)
  unfolding restore_row set_row
  restore_row-Holds d c l h = record { at = h }

  coalesce_row-Holds :
      (is_file : String → Bool) (quota : ℕ) (q : Request) (d : Derivative) (inserted : Bool)
      (c : Catalog) (l : Option Ledger)
      → Holds c
      → HoldsAfter (coalesce_row is_file quota q d inserted c l)
  unfolding coalesce_row
  coalesce_row-Holds is_file quota q d inserted c l h =
      either-Holds (is_ready d.status && has_file is_file d.cache_path) _ _ (record { at = h })
        (either-Holds (is_evicted d.status && has_file is_file d.cache_path) _ _
          (restore_row-Holds d c l h)
          (either-Holds (stays_terminal q d c) _ _ (record { at = h })
            (join_row-Holds quota q d inserted c l h)))

  insert_row-Holds : (q : Request) (c : Catalog) → Holds c → Holds (insert_row q c).0
  unfolding insert_row
  insert_row-Holds q c h = elim (Option-cases (find_identity q.identity c.derivatives)) [
    | inl absent ↦ rw (absent, insert_row) h
    | inr (d, e) ↦ rw (e, insert_row) h
  ]

  pub coalesce-Holds :
      (is_file : String → Bool) (quota : ℕ) (q : Request) (c : Catalog) (l : Option Ledger)
      (x : Coalesced)
      → coalesce is_file quota q c l ≡ some x
      → Holds c
      → Holds x.catalog
  unfolding coalesce
  coalesce-Holds is_file quota q c l x e h =
      let c' = (insert_row q c).0 in
      elim (Option-cases (find_identity q.identity c'.derivatives)) [
        | inl lost ↦ let gone : none ≡ some x = rw (lost, coalesce) at e in cc
        | inr (d, found) ↦
            let made : some (coalesce_row is_file quota q d (insert_row q c).1 c' l) ≡ some x =
              rw (found, coalesce) at e in
            (subst HoldsAfter (some-injective _ _ made) (
              coalesce_row-Holds is_file quota q d (insert_row q c).1 c' l
                (insert_row-Holds q c h))).at
      ]
