-- ===== src/Derivatives/Catalog/Tables.antt =====
-- Keys of the two tables, and how a change of one row shows in the capacity aggregates.
use gallery.Base.{
  ℕ, ◌+◌, ◌<◌, ◌≤◌, ◌≡◌, refl, Option, none, some, List, [], ◌∷◌, ◌==◌, if◌then◌else◌, arith,
  Bool-cases, inl, inr, ==_iff, some-injective,
}
use gallery.Derivatives.Catalog.{
  Identity, Derivative, Job, Catalog, find_id, find_identity, update_id, active_count, held,
  ready_bytes, not_ready, reserving_jobs,
}

-- Ids fall along the list and stay under the next one.
abbrev Keyed : ℕ → List Derivative → Type 0
Keyed n [] = Unit
Keyed n (d ∷ rest) = (d.id < n) × Keyed d.id rest

abbrev pub Refers : ℕ → List Job → Type 0
Refers n [] = Unit
Refers n (j ∷ rest) = (j.derivative_id < n) × Refers n rest

-- Primary keys, and REFERENCES asset_derivatives(id).
pub record IsKeyed (c : Catalog) : Type 0 where
  pub derivatives : Keyed c.next_derivative c.derivatives
  pub jobs : Refers c.next_derivative c.jobs

find_id-above : (n i : ℕ) (l : List Derivative) → Keyed n l → n ≤ i → find_id i l ≡ none
unfolding find_id
find_id-above n i [] k h = refl
find_id-above n i (d ∷ l) k h = ground (arith, find_id-above d.id i l k.1)

-- The row that a query by identity returns is the row of its id.
pub find_id-find_identity :
    (n : ℕ) (key : Identity) (l : List Derivative) (d : Derivative)
    → Keyed n l
    → find_identity key l ≡ some d
    → (find_id d.id l ≡ some d) × (d.id < n)
unfolding find_id find_identity
find_id-find_identity n key [] d k h = ground arith
find_id-find_identity n key (e ∷ l) d k h = ground (arith, find_id-find_identity e.id key l d k.1)

pub find_id-update_id :
    (i j : ℕ) (f : Derivative → Derivative) (l : List Derivative) (d : Derivative)
    → find_id i l ≡ some d
    → (f d).id ≡ i
    → find_id j (update_id i f l) ≡ (if j == i then some (f d) else find_id j l)
unfolding find_id update_id
find_id-update_id i j f [] d h e = ground arith
find_id-update_id i j f (x ∷ l) d h e = elim (Bool-cases (x.id == i)) [
  | inl hit ↦ let same : x ≡ d = some-injective x d (rw hit at h) in rw (hit, same) (ground arith)
  | inr miss ↦ ground (arith, find_id-update_id i j f l d)
]

pub ready_bytes-update_id :
    (i : ℕ) (f : Derivative → Derivative) (l : List Derivative) (d : Derivative)
    → find_id i l ≡ some d
    → ready_bytes (update_id i f l) + held d ≡ ready_bytes l + held (f d)
unfolding find_id update_id ready_bytes
ready_bytes-update_id i f [] d h = ground arith
ready_bytes-update_id i f (x ∷ l) d h = ground (arith, ready_bytes-update_id i f l d)

-- What a job of derivative `i` reserves when its row is `d`.
abbrev pub reserved : Option Derivative → ℕ → ℕ
reserved d n = if not_ready d then n else 0

pub reserving_jobs-update_id :
    (i : ℕ) (f : Derivative → Derivative) (l : List Derivative) (jobs : List Job) (d : Derivative)
    → find_id i l ≡ some d
    → (f d).id ≡ i
    → reserving_jobs (update_id i f l) jobs + reserved (some d) (active_count i jobs)
      ≡ reserving_jobs l jobs + reserved (some (f d)) (active_count i jobs)
unfolding reserving_jobs active_count
reserving_jobs-update_id i f l [] d h e = ground arith
reserving_jobs-update_id i f l (j ∷ jobs) d h e =
    rw (find_id-update_id i j.derivative_id f l d h e) (elim (Bool-cases (j.derivative_id == i)) [
      | inl hit ↦
          let here : find_id j.derivative_id l ≡ some d = rw ((==_iff j.derivative_id i).0 hit) h in
          rw (hit, here) (ground (arith, reserving_jobs-update_id i f l jobs d))
      | inr miss ↦ rw miss (ground (arith, reserving_jobs-update_id i f l jobs d))
    ])
