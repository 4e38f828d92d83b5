-- ===== src/Derivatives/Evict/Evicted.antt =====
-- What `_reserve_capacity` evicts: enough, no more than it must, and nothing that is in use.
use Prim.Native.String.{String}
use gallery.Base.{
  ℕ, leb→le, ◌+◌, ◌≡◌, ◌≤◌, ◌<◌, refl, subst, Bool, true, false, none, List, [], ◌∷◌, leb, All,
  Bool-cases, inl, inr, arith, if◌then◌else◌,
}
use gallery.Derivatives.Catalog.{Catalog}
use gallery.Derivatives.Ledger.{capacity_available}
use gallery.Derivatives.Evict.{
  Candidate, pick, Selection, enough, short, evict, missing_bytes, select_and_evict, rows_to_evict,
  apply_touches, by_use,
}

pub bytes_of : List Candidate → ℕ
bytes_of [] = 0
bytes_of (x ∷ rest) = x.byte_size + bytes_of rest

-- Without the last one.
pub but_last : List Candidate → List Candidate
but_last [] = []
but_last (x ∷ []) = []
but_last (x ∷ y ∷ rest) = x ∷ but_last (y ∷ rest)

pick-bytes :
    (busy : String → Bool) (needed total : ℕ) (xs : List Candidate)
    → (pick busy needed total xs).1 ≡ total + bytes_of (pick busy needed total xs).0
unfolding pick bytes_of
pick-bytes busy needed total [] = omega arith
pick-bytes busy needed total (x ∷ rest) =
    ground
      (arith, pick-bytes busy needed total rest, pick-bytes busy needed (total + x.byte_size) rest)

pick-free :
    (busy : String → Bool) (needed total : ℕ) (xs : List Candidate)
    → All (λ x. busy x.cache_path ≡ false) (pick busy needed total xs).0
unfolding pick
pick-free busy needed total [] = tt
pick-free busy needed total (x ∷ rest) = elim (Bool-cases (busy x.cache_path)) [
  | inl used ↦ rw used (pick-free busy needed total rest)
  | inr free ↦ elim (Bool-cases (leb needed (total + x.byte_size))) [
    | inl full ↦ rw free (rw full (free, tt))
    | inr less ↦ rw free (rw less (free, pick-free busy needed (total + x.byte_size) rest))
  ]
]

but_last-cons :
    (x : Candidate) (xs : List Candidate)
    → bytes_of (but_last (x ∷ xs)) ≤ x.byte_size + bytes_of (but_last xs)
unfolding bytes_of but_last
but_last-cons x [] = omega arith
but_last-cons x (y ∷ ys) = omega arith

pick-least :
    (busy : String → Bool) (needed total : ℕ) (xs : List Candidate)
    → total < needed
    → total + bytes_of (but_last (pick busy needed total xs).0) < needed
unfolding pick bytes_of but_last
pick-least busy needed total [] h = omega (arith, h)
pick-least busy needed total (x ∷ rest) h = elim (Bool-cases (busy x.cache_path)) [
  | inl used ↦ rw used (pick-least busy needed total rest h)
  | inr free ↦ elim (Bool-cases (leb needed (total + x.byte_size))) [
    | inl full ↦ rw free (rw full (omega (arith, h)))
    | inr less ↦
        let below : total + x.byte_size < needed = ground (arith, less) in
        let more = pick-least busy needed (total + x.byte_size) rest below in
        let split = but_last-cons x (pick busy needed (total + x.byte_size) rest).0 in
        rw free (rw less (omega (arith, more, split)))
  ]
]

evict-injective : (s t : List Candidate) → evict s ≡ evict t → s ≡ t
evict-injective s t e = cc

chosen :
    (fit room : Bool) (s selected : List Candidate) (c c' c'' : Catalog)
    → (if◌then◌else◌ {A = Selection × Catalog} fit
        (enough, c)
        (if room then (evict s, c') else (short, c''))).0
      ≡ evict selected
    → (fit ≡ false) × (room ≡ true) × (s ≡ selected)
chosen true room s selected c c' c'' e = cc
chosen false true s selected c c' c'' e = (refl, refl, evict-injective s selected e)
chosen false false s selected c c' c'' e = cc

missing_some :
    (c : Catalog) (estimated quota : ℕ)
    → (capacity_available none c estimated quota).0 ≡ false
    → 0 < missing_bytes c estimated quota
unfolding capacity_available
missing_some c estimated quota e = ground (arith, e)

selected_by :
    (busy : String → Bool) (touches : List (ℕ × ℕ)) (estimated quota : ℕ) (c : Catalog)
    (selected : List Candidate)
    → (select_and_evict busy touches estimated quota c).0 ≡ evict selected
    → ((capacity_available none c estimated quota).0 ≡ false)
      × (leb
            (missing_bytes c estimated quota)
            (pick busy
              (missing_bytes c estimated quota)
              0
              (rows_to_evict (by_use (apply_touches touches c.derivatives)))).1
          ≡ true)
      × ((pick busy
            (missing_bytes c estimated quota)
            0
            (rows_to_evict (by_use (apply_touches touches c.derivatives)))).0
          ≡ selected)
unfolding select_and_evict
selected_by busy touches estimated quota c selected e =
    let needed = missing_bytes c estimated quota in
    let picked =
      pick busy needed 0 (rows_to_evict (by_use (apply_touches touches c.derivatives))) in
    chosen (capacity_available none c estimated quota).0 (leb needed picked.1) picked.0 selected c _
      _ e

-- When room is to be made by eviction, the selected files hold at least the bytes that are missing, they
-- would hold too few without the last of them, and none of them is being served or generated.
pub evicts_least :
    (busy : String → Bool) (touches : List (ℕ × ℕ)) (estimated quota : ℕ) (c : Catalog)
    (selected : List Candidate)
    → (select_and_evict busy touches estimated quota c).0 ≡ evict selected
    → (missing_bytes c estimated quota ≤ bytes_of selected)
      × (bytes_of (but_last selected) < missing_bytes c estimated quota)
      × All (λ x. busy x.cache_path ≡ false) selected
evicts_least busy touches estimated quota c selected e =
    let needed = missing_bytes c estimated quota in
    let rows = rows_to_evict (by_use (apply_touches touches c.derivatives)) in
    let (full, enough_bytes, same) = selected_by busy touches estimated quota c selected e in
    let bytes = pick-bytes busy needed 0 rows in
    let covers = leb→le needed (pick busy needed 0 rows).1 enough_bytes in
    let least = pick-least busy needed 0 rows (missing_some c estimated quota full) in
    subst
      (λ s.
        (needed ≤ bytes_of s)
        × (bytes_of (but_last s) < needed)
        × All (λ x. busy x.cache_path ≡ false) s)
      same (omega (arith, bytes, covers), omega (arith, least), pick-free busy needed 0 rows)
