-- ===== src/Derivatives/Coalesce/Insert.antt =====
-- When a ledger agrees with the tables, and what the insert of a row changes.
use text.Mathlib.TextPositions.{eq_refl}
use gallery.Base.{
  ℕ, ◌≡◌, ◌≢◌, refl, true, false, none, some, List, [], ◌∷◌, ◌⊎◌, inl, inr, arith, ◌==◌,
  Option-cases, ◌≤◌,
}
use gallery.Derivatives.Catalog.{
  Identity, same_identity, Derivative, Job, Catalog, find_id, find_identity, active_job,
  active_count, held, ready_bytes, reserving_jobs,
}
use gallery.Derivatives.Catalog.Tables.{IsKeyed, Refers}
use gallery.Derivatives.Ledger.{Ledger, available, capacity_available}
use gallery.Derivatives.Coalesce.{Request, new_row, insert_row}

-- The ledger has loaded nothing yet, or holds both aggregates.
abbrev pub Agrees : Ledger → Catalog → Type 0
Agrees l c =
    ((l.ready_used ≡ none) × (l.active_jobs ≡ none))
    ⊎ ((l.ready_used ≡ some (ready_bytes c.derivatives))
        × (l.active_jobs ≡ some (reserving_jobs c.derivatives c.jobs)))

pub available-Agrees :
    (l : Ledger) (c : Catalog) (estimated quota : ℕ)
    → Agrees l c
    → ((available l c estimated quota).0 ≡ (capacity_available none c estimated quota).0)
      × Agrees (available l c estimated quota).1 c
unfolding available capacity_available
available-Agrees l c estimated quota h = ground arith

-- What a row without active jobs, or a row that comes in, does to the aggregates.
pub active_count-none : (i : ℕ) (l : List Job) → active_job i l ≡ none → active_count i l ≡ 0
unfolding active_job active_count
active_count-none i [] h = refl
active_count-none i (j ∷ l) h = ground (arith, active_count-none i l)

reserving_jobs-insert :
    (d : Derivative) (rows : List Derivative) (jobs : List Job)
    → Refers d.id jobs
    → reserving_jobs (d ∷ rows) jobs ≡ reserving_jobs rows jobs
unfolding reserving_jobs find_id
reserving_jobs-insert d rows [] h = refl
reserving_jobs-insert d rows (j ∷ jobs) h =
    let older : (d.id == j.derivative_id) ≡ false = ground arith in
    rw (reserving_jobs-insert d rows jobs h.1, older)

pub insert_row-Agrees :
    (q : Request) (c : Catalog) (l : Ledger) → IsKeyed c → Agrees l c → Agrees l (insert_row q c).0
unfolding insert_row ready_bytes held
insert_row-Agrees q c l k h = elim (Option-cases (find_identity q.identity c.derivatives)) [
  | inl new ↦
      rw (new, insert_row)
        (ground (
          arith,
          reserving_jobs-insert (new_row q c.next_derivative c.now) c.derivatives c.jobs k.jobs,
        ))
  | inr (d, old) ↦ rw (old, insert_row) h
]

Refers-mono : (m n : ℕ) (l : List Job) → m ≤ n → Refers m l → Refers n l
Refers-mono m n [] h r = tt
Refers-mono m n (j ∷ l) h r = (omega arith, Refers-mono m n l h r.1)

pub insert_row-IsKeyed : (q : Request) (c : Catalog) → IsKeyed c → IsKeyed (insert_row q c).0
unfolding insert_row
insert_row-IsKeyed q c k = elim (Option-cases (find_identity q.identity c.derivatives)) [
  | inl new ↦
      rw (new, insert_row)
        (record {
          derivatives = (omega arith, k.derivatives);
          jobs = Refers-mono _ _ c.jobs (omega arith) k.jobs;
        })
  | inr (d, old) ↦ rw (old, insert_row) k
]

same_identity_refl : (k : Identity) → same_identity k k ≡ true
same_identity_refl k = rw (eq_refl k.kind, eq_refl k.variant) (ground arith)

-- The identity of a request has a row after the insert.
pub insert_row-found :
    (q : Request) (c : Catalog) → find_identity q.identity (insert_row q c).0.derivatives ≢ none
unfolding insert_row find_identity
insert_row-found q c = elim (Option-cases (find_identity q.identity c.derivatives)) [
  | inl new ↦ rw (new, insert_row) (ground (arith, same_identity_refl q.identity))
  | inr (d, old) ↦ rw (old, insert_row) (ground arith)
]
