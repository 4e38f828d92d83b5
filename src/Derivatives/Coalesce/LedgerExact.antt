-- ===== src/Derivatives/Coalesce/LedgerExact.antt =====
-- A batch that coalesces through a `CapacityLedger` decides as one that aggregates afresh each time.
use Prim.Native.String.{String}
use gallery.Base.{ℕ, ◌≡◌, refl, Bool, not, ◌&&◌, ◌||◌, none, some, inl, inr, Option-cases}
use gallery.Derivatives.Catalog.{
  Derivative, Catalog, is_evicted, is_ready, find_id, find_identity, active_job, active_count,
}
use gallery.Derivatives.Catalog.Tables.{IsKeyed, find_id-find_identity}
use gallery.Derivatives.Ledger.{Ledger, capacity_available}
use gallery.Derivatives.Coalesce.Insert.{
  Agrees, available-Agrees, active_count-none, insert_row-Agrees, insert_row-IsKeyed,
  insert_row-found,
}
use gallery.Derivatives.Coalesce.{
  estimate_or, reserve_row, raise_priority, schedule_row, join_row, stays_terminal, has_file,
  waits_for_capacity, coalesce_row, Request, Outcome, Coalesced, insert_row, coalesce,
}
use gallery.Derivatives.Coalesce.SameAs.{
  SameAs, SameAs-if, restore_row-SameAs, defer_row-SameAs, queue_row-SameAs, raise_priority-Agrees,
  unchanged-SameAs,
}

module _ (quota : ℕ) (q : Request) (d : Derivative) (inserted : Bool) (c : Catalog) (l : Ledger)
    (found : find_id d.id c.derivatives ≡ some d) (h : Agrees l c) where
  reserve_row-SameAs :
      active_count d.id c.jobs ≡ 0
      → SameAs (reserve_row quota q d inserted c (some l)) (reserve_row quota q d inserted c none)
  unfolding reserve_row capacity_available
  reserve_row-SameAs alone =
      let (same, h') = available-Agrees l c (estimate_or q.estimated_bytes c) quota h in
      SameAs-if _ same (queue_row-SameAs d q.priority inserted c _ found alone h')
        (defer_row-SameAs d inserted c _ found alone h')

  schedule_row-SameAs :
      active_count d.id c.jobs ≡ 0
      → SameAs (schedule_row quota q d inserted c (some l)) (schedule_row quota q d inserted c none)
  unfolding schedule_row
  schedule_row-SameAs alone =
      SameAs-if
        (waits_for_capacity d.status && (q.deferrable && not q.reconsider_deferred_capacity)) refl
        (unchanged-SameAs d.id Outcome.deferred_capacity c l h)
        (SameAs-if (inserted || (waits_for_capacity d.status || q.deferrable)) refl
          (reserve_row-SameAs alone) (queue_row-SameAs d q.priority inserted c l found alone h))

  join_row-SameAs :
      SameAs (join_row quota q d inserted c (some l)) (join_row quota q d inserted c none)
  unfolding join_row
  join_row-SameAs = elim (Option-cases (active_job d.id c.jobs)) [
    | inl alone ↦ rw (alone, join_row) (schedule_row-SameAs (active_count-none d.id c.jobs alone))
    | inr (j, held_by) ↦
        rw (held_by, join_row)
          (unchanged-SameAs d.id Outcome.active (raise_priority q.priority j c) l
            (raise_priority-Agrees q.priority j c l h))
  ]

  coalesce_row-SameAs :
      (is_file : String → Bool)
      → SameAs
          (coalesce_row is_file quota q d inserted c (some l))
          (coalesce_row is_file quota q d inserted c none)
  unfolding coalesce_row
  coalesce_row-SameAs is_file =
      SameAs-if (is_ready d.status && has_file is_file d.cache_path) refl
        (unchanged-SameAs d.id Outcome.ready c l h)
        (SameAs-if (is_evicted d.status && has_file is_file d.cache_path) refl
          (restore_row-SameAs d c l found h)
          (SameAs-if (stays_terminal q d c) refl
            (unchanged-SameAs d.id (Outcome.terminal d.status) c l h) join_row-SameAs))

-- From tables with their keys and a ledger that agrees with them, coalescing one identity succeeds with
-- and without the ledger, with one id, one outcome and the same tables, and the ledger that comes out
-- agrees with the tables that come out.
pub coalesce-ledger_exact :
    (is_file : String → Bool) (quota : ℕ) (q : Request) (c : Catalog) (l : Ledger)
    → IsKeyed c
    → Agrees l c
    → (x y : Coalesced) × (coalesce is_file quota q c (some l) ≡ some x)
      × (coalesce is_file quota q c none ≡ some y)
      × SameAs x y
unfolding coalesce
coalesce-ledger_exact is_file quota q c l keys h =
    elim (Option-cases (find_identity q.identity (insert_row q c).0.derivatives)) [
      | inl missing ↦ absurd (insert_row-found q c missing)
      | inr (d, there) ↦
          let keys' = insert_row-IsKeyed q c keys in
          let found = find_id-find_identity _ q.identity _ d keys'.derivatives there in
          (
            _,
            _,
            rw (there, coalesce),
            rw (there, coalesce),
            coalesce_row-SameAs quota q d (insert_row q c).1 (insert_row q c).0 l found.0
                (insert_row-Agrees q c l keys h) is_file,
          )
    ]
