-- ===== src/Counters/Upserts.antt =====
-- What the upserts of a repair leave, and the entries of the recomputed counters.
use gallery.Base.{
  ◌≡◌, refl, sym, ap, subst, ◌∙◌, inl, inr, Bool, true, false, Option, none, some, List, [], ◌∷◌,
  ◌++◌, arith, Bool-cases, Option-cases, some-injective, Has,
}
use gallery.Base.Text.{Text, codes, same, same_refl, same→eq, same_iff}
use gallery.Base.Int.{ℤ, pos, eqb_ℤ→eq, eqb_ℤ_refl}
use gallery.Counters.Tables.{
  Database, metadata_states, metadata_counter_name, ready_bytes_counter, count, total,
  compute_counters, get,
}
use gallery.Counters.Reads.{differs, drifts, upsert, upsert_each}

get-upsert_self : (k : Text) (v : ℤ) (cs : List (Text × ℤ)) → get k (upsert k v cs) ≡ some v
unfolding get upsert
get-upsert_self k v [] = rw (same_refl k) refl
get-upsert_self k v ((n, w) ∷ cs) = ground (arith, get-upsert_self k v cs)

get-upsert_other :
    (k n : Text) (v : ℤ) (cs : List (Text × ℤ))
    → same n k ≡ false
    → get k (upsert n v cs) ≡ get k cs
unfolding get upsert
get-upsert_other k n v [] h = rw h refl
get-upsert_other k n v ((m, w) ∷ cs) h =
    ground (arith, get-upsert_other k n v cs, same_iff m n, same_iff m k, same_iff n k)

pub differs-false : (o : Option ℤ) (v : ℤ) → differs o v ≡ false → o ≡ some v
unfolding differs
differs-false none v h = cc
differs-false (some w) v h = ap some (eqb_ℤ→eq w v (ground arith))

pub differs_self : (v : ℤ) → differs (some v) v ≡ false
unfolding differs
differs_self v = rw (eqb_ℤ_refl v) refl

-- No name occurs twice.
pub distinct : List (Text × ℤ) → Bool
distinct [] = true
distinct ((n, v) ∷ cs) = elim (get n cs) [ none ↦ distinct cs | some w ↦ false ]

get-upsert_each_other :
    (k : Text) (actual stored cs : List (Text × ℤ))
    → get k actual ≡ none
    → get k (upsert_each (drifts actual stored) cs) ≡ get k cs
unfolding upsert_each drifts get
get-upsert_each_other k [] stored cs h = refl
get-upsert_each_other k ((n, v) ∷ actual) stored cs h = elim (Bool-cases (same n k)) [
  | inl e ↦ absurd (cc (rw e at h))
  | inr e ↦ elim (Bool-cases (differs (get n stored) v)) [
    | inl f ↦ rw f (
        get-upsert_each_other k actual stored (upsert n v cs) (rw e at h)
        ∙ get-upsert_other k n v cs e)
    | inr f ↦ rw f (get-upsert_each_other k actual stored cs (rw e at h))
  ]
]

distinct_head :
    (n : Text) (w : ℤ) (cs : List (Text × ℤ)) → distinct ((n, w) ∷ cs) ≡ true → get n cs ≡ none
unfolding distinct
distinct_head n w cs h = elim (Option-cases (get n cs)) [
  | inl e ↦ e
  | inr (v, e) ↦ let no_more : false ≡ true = rw (e, distinct) at h in cc
]

distinct_tail :
    (n : Text) (w : ℤ) (cs : List (Text × ℤ)) → distinct ((n, w) ∷ cs) ≡ true → distinct cs ≡ true
unfolding distinct
distinct_tail n w cs h = rw (distinct_head n w cs h, distinct) at h

get-upsert_each_head :
    (k : Text) (v : ℤ) (actual stored cs : List (Text × ℤ))
    → get k actual ≡ none
    → get k cs ≡ get k stored
    → get k (upsert_each (drifts ((k, v) ∷ actual) stored) cs) ≡ some v
unfolding upsert_each drifts
get-upsert_each_head k v actual stored cs h e = elim (Bool-cases (differs (get k stored) v)) [
  | inl f ↦ rw f (get-upsert_each_other k actual stored (upsert k v cs) h ∙ get-upsert_self k v cs)
  | inr f ↦ rw f (get-upsert_each_other k actual stored cs h ∙ e ∙ differs-false (get k stored) v f)
]

-- After the repair a name that was recomputed has its recomputed value.
pub get-upsert_each :
    (k : Text) (v : ℤ) (actual stored cs : List (Text × ℤ))
    → distinct actual ≡ true
    → get k actual ≡ some v
    → get k cs ≡ get k stored
    → get k (upsert_each (drifts actual stored) cs) ≡ some v
unfolding upsert_each drifts get
get-upsert_each k v [] stored cs d h e = cc
get-upsert_each k v ((n, w) ∷ actual) stored cs d h e = elim (Bool-cases (same n k)) [
  | inl q ↦
      let n_k : k ≡ n = sym (same→eq n k q) in
      let w_v : w ≡ v = some-injective w v (rw q at h) in
      let free : get k actual ≡ none =
        ap (λ (m : Text). get m actual) n_k ∙ distinct_head n w actual d in
      subst (λ (m : Text). get k (upsert_each (drifts ((m, w) ∷ actual) stored) cs) ≡ some v) n_k
        (get-upsert_each_head k w actual stored cs free e ∙ ap some w_v)
  | inr q ↦ elim (Bool-cases (differs (get n stored) w)) [
    | inl f ↦ rw f (
        get-upsert_each k v actual stored (upsert n w cs) (distinct_tail n w actual d) (rw q at h)
          (get-upsert_other k n w cs q ∙ e))
    | inr f ↦ rw f (get-upsert_each k v actual stored cs (distinct_tail n w actual d) (rw q at h) e)
  ]
]

-- Counters that have every recomputed value do not drift.
pub drifts-none :
    (actual stored : List (Text × ℤ))
    → ((k : Text) (v : ℤ) → get k actual ≡ some v → get k stored ≡ some v)
    → distinct actual ≡ true
    → drifts actual stored ≡ []
unfolding drifts get
drifts-none [] stored h d = refl
drifts-none ((n, w) ∷ actual) stored h d =
    let first : get n stored ≡ some w = h n w (rw (same_refl n) refl) in
    let rest : drifts actual stored ≡ [] =
      drifts-none actual stored
        (λ k v g. h k v (elim (Bool-cases (same n k)) [
          | inl q ↦
              absurd (
                cc (ap (λ (m : Text). get m actual) (same→eq n k q), distinct_head n w actual d, g))
          | inr q ↦ rw q g
        ]))
        (distinct_tail n w actual d) in
    rw (first, differs_self w) rest

pub compute_counters-distinct : (d : Database) → distinct (compute_counters d) ≡ true
unfolding compute_counters metadata_counter_name ready_bytes_counter get same distinct
compute_counters-distinct d = refl

-- The recomputed counter of one state.
abbrev pub Computed : Database → Text → Type 0
Computed d s = get (metadata_counter_name s) (compute_counters d) ≡ some (pos (count s d.jobs))

Computed-queued : (d : Database) → Computed d (codes "queued")
unfolding compute_counters metadata_counter_name ready_bytes_counter get same
Computed-queued d = refl

Computed-running : (d : Database) → Computed d (codes "running")
unfolding compute_counters metadata_counter_name ready_bytes_counter get same
Computed-running d = refl

Computed-done : (d : Database) → Computed d (codes "done")
unfolding compute_counters metadata_counter_name ready_bytes_counter get same
Computed-done d = refl

Computed-stale : (d : Database) → Computed d (codes "stale")
unfolding compute_counters metadata_counter_name ready_bytes_counter get same
Computed-stale d = refl

Computed-failed : (d : Database) → Computed d (codes "failed")
unfolding compute_counters metadata_counter_name ready_bytes_counter get same
Computed-failed d = refl

Computed-skipped : (d : Database) → Computed d (codes "skipped")
unfolding compute_counters metadata_counter_name ready_bytes_counter get same
Computed-skipped d = refl

pub get-compute_counters : (s : Text) (d : Database) → Has s metadata_states → Computed d s
get-compute_counters s d (inl e) = subst (Computed d) (sym e) (Computed-queued d)
get-compute_counters s d (inr (inl e)) = subst (Computed d) (sym e) (Computed-running d)
get-compute_counters s d (inr (inr (inl e))) = subst (Computed d) (sym e) (Computed-done d)
get-compute_counters s d (inr (inr (inr (inl e)))) = subst (Computed d) (sym e) (Computed-stale d)
get-compute_counters s d (inr (inr (inr (inr (inl e))))) =
    subst (Computed d) (sym e) (Computed-failed d)
get-compute_counters s d (inr (inr (inr (inr (inr (inl e)))))) =
    subst (Computed d) (sym e) (Computed-skipped d)
get-compute_counters s d (inr (inr (inr (inr (inr (inr x)))))) = elim x [ ]

pub get-compute_bytes :
    (d : Database) → get ready_bytes_counter (compute_counters d) ≡ some (total d.derivatives)
unfolding compute_counters metadata_counter_name ready_bytes_counter get same
get-compute_bytes d = refl

pub get-append :
    (k : Text) (v : ℤ) (cs ds : List (Text × ℤ)) → get k cs ≡ some v → get k (cs ++ ds) ≡ some v
unfolding get
get-append k v [] ds h = cc
get-append k v ((n, w) ∷ cs) ds h = ground (arith, get-append k v cs ds)
