-- ===== src/Derivatives/Evict.antt =====
-- `_reserve_capacity` of backend/derivative_scheduler/capacity.py: files make room for a new derivative.
-- `busy` says which paths are being served or generated, `touches` are the accesses that wait to be
-- written, and `unlinked` says which files the unlink could remove.
pub mod Evicted
use text.Mathlib.Text.{◌==◌ as str_eq}
use Prim.Native.String.{String}
use gallery.Base.{
  ℕ, ◌+◌, ◌-◌, ◌*◌, Bool, true, false, not, ◌&&◌, Option, none, some, List, [], ◌∷◌, leb,
  if◌then◌else◌,
}
use gallery.Derivatives.Catalog.{
  Status, Derivative, Catalog, is_ready, is_evicted, or_zero, update_id,
}
use gallery.Derivatives.Ledger.{capacity_counts, capacity_available}

pub record Candidate : Type 0 where
  pub derivative_id : ℕ
  pub cache_path : String
  pub byte_size : ℕ

-- `_apply_touches`
unfoldable pub apply_touches : List (ℕ × ℕ) → List Derivative → List Derivative
apply_touches [] rows = rows
apply_touches ((i, at) ∷ rest) rows =
    apply_touches rest (update_id i (λ d. record d { last_accessed_at = some at }) rows)

-- COALESCE(last_accessed_at, created_at); the order of rows with the same time is that of the table.
unfoldable pub last_used : Derivative → ℕ
last_used d = elim d.last_accessed_at [ none ↦ d.created_at | some t ↦ t ]

insert_by_use : Derivative → List Derivative → List Derivative
insert_by_use d [] = d ∷ []
insert_by_use d (e ∷ rest) =
    let later = insert_by_use d rest in
    if leb (last_used d) (last_used e) then d ∷ e ∷ rest else e ∷ later

unfoldable pub by_use : List Derivative → List Derivative
unfolding insert_by_use
by_use [] = []
by_use (d ∷ rest) = insert_by_use d (by_use rest)

with_path : Derivative → Option String → List Candidate → List Candidate
with_path d none rest = rest
with_path d (some path) rest =
    record { derivative_id = d.id; cache_path = path; byte_size = or_zero d.byte_size } ∷ rest

-- WHERE status = 'ready' AND cache_path IS NOT NULL
unfoldable pub rows_to_evict : List Derivative → List Candidate
unfolding with_path
rows_to_evict [] = []
rows_to_evict (d ∷ rest) =
    let others = rows_to_evict rest in
    if is_ready d.status then with_path d d.cache_path others else others

-- The loop over the candidates: what it selects, and the bytes of that.
unfoldable pub pick : (String → Bool) → ℕ → ℕ → List Candidate → List Candidate × ℕ
pick busy needed total [] = ([], total)
pick busy needed total (x ∷ rest) =
    let passed = pick busy needed total rest in
    let more = pick busy needed (total + x.byte_size) rest in
    if busy x.cache_path
    then passed
    else if leb needed (total + x.byte_size)
    then (x ∷ [], total + x.byte_size)
    else (x ∷ more.0, more.1)

abbrev at_path : String → Derivative → Bool
at_path path d = elim d.cache_path [ none ↦ false | some p ↦ str_eq p path ]

-- WHERE id = ? AND status = 'ready' AND cache_path = ?
unfoldable pub evict_each : List Candidate → List Derivative → List Derivative
evict_each [] rows = rows
evict_each (x ∷ rest) rows = evict_each rest (
    update_id x.derivative_id
      (λ d.
        if is_ready d.status && at_path x.cache_path d
        then record d { status = Status.evicted; last_error = some "evicted: capacity reservation" }
        else d)
      rows)

pub data Selection : Type 0 where
  enough : Selection  -- there is room
  short : Selection  -- there is not, and too little can go
  evict : List Candidate → Selection

abbrev pub missing_bytes : Catalog → ℕ → ℕ → ℕ
missing_bytes c estimated quota =
    let (used, jobs) = capacity_counts c in used + jobs * estimated + estimated - quota

-- `select_and_evict`
unfoldable pub select_and_evict :
    (String → Bool) → List (ℕ × ℕ) → ℕ → ℕ → Catalog → Selection × Catalog
select_and_evict busy touches estimated quota c =
    let touched = apply_touches touches c.derivatives in
    let needed = missing_bytes c estimated quota in
    let (selected, bytes) = pick busy needed 0 (rows_to_evict (by_use touched)) in
    if (capacity_available none c estimated quota).0
    then (enough, c)
    else if leb needed bytes
    then (evict selected, record c { derivatives = evict_each selected touched })
    else (short, record c { derivatives = touched })

-- `finalize`: WHERE id = ? AND status = 'evicted' AND cache_path = ?
abbrev settle_evicted : Bool → Candidate → Derivative → Derivative
settle_evicted removed x d =
    if is_evicted d.status && at_path x.cache_path d
    then (if removed then record d { cache_path = none; byte_size = none } else record d {
      status = Status.ready;
      cache_path = some x.cache_path;
      byte_size = some x.byte_size;
      last_error = none;
    })
    else d

-- The rows of removed files come first, then those whose unlink failed.
finalize_part : Bool → (String → Bool) → List Candidate → List Derivative → List Derivative
finalize_part removed unlinked [] rows = rows
finalize_part removed unlinked (x ∷ rest) rows =
    let of_part = if removed then unlinked x.cache_path else not (unlinked x.cache_path) in
    finalize_part removed unlinked rest
      (if of_part then update_id x.derivative_id (settle_evicted removed x) rows else rows)

unfoldable finalize : (String → Bool) → List Candidate → Catalog → Catalog
unfolding finalize_part
finalize unlinked selected c = record c {
  derivatives =
      finalize_part false unlinked selected (finalize_part true unlinked selected c.derivatives);
}

-- The whole of `_reserve_capacity`; `others` is what other writers do between its two ops.
unfoldable reserve_capacity :
    (String → Bool)
    → (String → Bool)
    → (Catalog → Catalog)
    → List (ℕ × ℕ)
    → ℕ
    → ℕ
    → Catalog
    → Bool × Catalog
reserve_capacity busy unlinked others touches estimated quota c =
    let (selection, c') = select_and_evict busy touches estimated quota c in
    elim selection [
      | enough ↦ (true, c')
      | short ↦ (false, c')
      | evict selected ↦
          let c'' = finalize unlinked selected (others c') in
          ((capacity_available none c'' estimated quota).0, c'')
    ]
