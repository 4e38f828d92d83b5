-- ===== src/Derivatives/Ledger.antt =====
-- backend/derivative_scheduler/capacity.py: the capacity aggregates, and CapacityLedger, which follows
-- them in memory through one write transaction. A count of the ledger is a number that the aggregates
-- also have, so `-` stands for Python's `-=`: what is taken off was counted.
use gallery.Base.{
  ℕ, ◌+◌, ◌-◌, ◌*◌, ◌/◌, Bool, ◌&&◌, Option, none, some, List, [], ◌∷◌, ◌==◌, ltb, leb,
  if◌then◌else◌,
}
use gallery.Derivatives.Catalog.{
  Derivative, Catalog, is_ready, or_zero, ready_bytes, reserving_jobs,
}

pub record Ledger : Type 0 where
  pub ready_used : Option ℕ
  pub active_jobs : Option ℕ

-- CapacityLedger()
abbrev pub unloaded : Ledger
unloaded = record { ready_used = none; active_jobs = none }

unfoldable pub capacity_counts : Catalog → ℕ × ℕ
capacity_counts c = (ready_bytes c.derivatives, reserving_jobs c.derivatives c.jobs)

abbrev fits : ℕ → ℕ → ℕ → ℕ → Bool
fits ready_used active_jobs estimated quota =
    leb (ready_used + active_jobs * estimated + estimated) quota

-- The first check loads both aggregates; later ones read the ledger.
loaded : Catalog → Option ℕ → Option ℕ → ℕ × ℕ
unfolding capacity_counts
loaded c (some used) (some jobs) = (used, jobs)
loaded c _ _ = capacity_counts c

unfoldable pub available : Ledger → Catalog → ℕ → ℕ → Bool × Ledger
unfolding loaded
available l c estimated quota =
    let (used, jobs) = loaded c l.ready_used l.active_jobs in
    (fits used jobs estimated quota, record { ready_used = some used; active_jobs = some jobs })

unfoldable pub ready_row_left : Option ℕ → Ledger → Ledger
ready_row_left byte_size l = elim l.ready_used [
  | none ↦ l
  | some used ↦ record l { ready_used = some (used - or_zero byte_size) }
]

unfoldable pub ready_row_restored : Option ℕ → ℕ → Ledger → Ledger
ready_row_restored byte_size active l = elim l.ready_used [
  | none ↦ l
  | some used ↦ elim l.active_jobs [
    | none ↦ l
    | some jobs ↦ record {
      ready_used = some (used + or_zero byte_size);
      active_jobs = some (jobs - active);
    }
  ]
]

unfoldable pub job_queued : Ledger → Ledger
job_queued l = elim l.active_jobs [
  | none ↦ l
  | some jobs ↦ record l { active_jobs = some (jobs + 1) }
]

-- `_capacity_available`: by the ledger of a batch, else by fresh aggregates.
unfoldable pub capacity_available : Option Ledger → Catalog → ℕ → ℕ → Bool × Option Ledger
unfolding capacity_counts
capacity_available (some l) c estimated quota =
    let (fit, l') = available l c estimated quota in (fit, some l')
capacity_available none c estimated quota =
    let (used, jobs) = capacity_counts c in (fits used jobs estimated quota, none)

-- `_estimate_new_derivative_bytes`: the average size of the ready rows with bytes, rounded down.
sized : List Derivative → ℕ
sized [] = 0
sized (d ∷ rest) = sized rest + (if is_ready d.status && ltb 0 (or_zero d.byte_size) then 1 else 0)

abbrev fallback_bytes : ℕ
fallback_bytes = 65536

unfoldable pub estimate_bytes : Catalog → ℕ
unfolding sized
estimate_bytes c =
    let n = sized c.derivatives in if n == 0 then fallback_bytes else ready_bytes c.derivatives / n
