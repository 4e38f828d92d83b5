-- ===== src/Counters/Backfill.antt =====
-- The repair and the backfill make the stored counters right.
use gallery.Base.{
  ◌≡◌, refl, ap, inl, inr, true, false, Option, none, some, List, [], ◌∷◌, Bool-cases, Option-cases,
}
use gallery.Base.Text.{Text}
use gallery.Base.Int.{ℤ}
use gallery.Counters.Tables.{Trigger, Database, counter_names, compute_counters, get, read_counters}
use gallery.Counters.Reads.{
  Drift, drifts, upsert_each, report, verify_runtime_counters, insert_missing, needs_backfill,
  run_statements, ensure_runtime_counters,
}
use gallery.Counters.Bumps.{get→Holds, Holds→get}
use gallery.Counters.Kept.{Exact}
use gallery.Counters.Upserts.{
  get-upsert_each, drifts-none, compute_counters-distinct, get-compute_counters, get-compute_bytes,
  get-append,
}

abbrev pub with_counters : Database → List (Text × ℤ) → Database
with_counters d cs = record d { counters = some cs }

report_repairs :
    (drift : Drift) (d : Database) (cs : List (Text × ℤ))
    → report true drift (with_counters d cs) ≡ some (drift, with_counters d (upsert_each drift cs))
unfolding report upsert_each
report_repairs [] d cs = refl
report_repairs (x ∷ xs) d cs = refl

report_nothing : (d : Database) → report true [] d ≡ some ([], d)
unfolding report
report_nothing d = refl

-- The counters that a repair of `cs` leaves.
repaired : Database → List (Text × ℤ) → List (Text × ℤ)
repaired d cs = upsert_each (drifts (compute_counters d) cs) cs

get-repaired :
    (k : Text) (v : ℤ) (d : Database) (cs : List (Text × ℤ))
    → get k (compute_counters d) ≡ some v
    → get k (repaired d cs) ≡ some v
unfolding repaired
get-repaired k v d cs h =
    get-upsert_each k v (compute_counters d) cs cs (compute_counters-distinct d) h refl

repaired-Exact :
    (d : Database) (cs : List (Text × ℤ))
    → ((t : Trigger) → d.installed t ≡ true)
    → Exact (with_counters d (repaired d cs))
repaired-Exact d cs on = record {
  installed = on;
  states = λ s m. get→Holds _ _ _ (get-repaired _ _ d cs (get-compute_counters s d m));
  bytes = get→Holds _ _ _ (get-repaired _ _ d cs (get-compute_bytes d));
}

-- verify_runtime_counters with `repair`, where the table and the triggers exist and whatever the
-- counters are: it reports the drift, writes no other table, leaves each counter right, and a second
-- call reports nothing and changes nothing.
pub verify_runtime_counters-Exact :
    (d : Database) (cs : List (Text × ℤ))
    → ((t : Trigger) → d.installed t ≡ true)
    → (after : List (Text × ℤ)) × (verify_runtime_counters true (with_counters d cs)
        ≡ some (drifts (compute_counters d) cs, with_counters d after))
      × Exact (with_counters d after)
      × (verify_runtime_counters true (with_counters d after) ≡ some ([], with_counters d after))
unfolding verify_runtime_counters read_counters compute_counters repaired
verify_runtime_counters-Exact d cs on =
    let again : drifts (compute_counters d) (repaired d cs) ≡ [] =
      drifts-none (compute_counters d) (repaired d cs) (λ k v h. get-repaired k v d cs h)
        (compute_counters-distinct d) in
    (
      repaired d cs,
      report_repairs (drifts (compute_counters d) cs) d cs,
      repaired-Exact d cs on,
      rw again (report_nothing (with_counters d (repaired d cs))),
    )

insert_missing-keeps :
    (k : Text) (v : ℤ) (ns : List Text) (cs : List (Text × ℤ))
    → get k cs ≡ some v
    → get k (insert_missing ns cs) ≡ some v
unfolding insert_missing
insert_missing-keeps k v [] cs h = h
insert_missing-keeps k v (n ∷ ns) cs h = elim (Option-cases (get n cs)) [
  | inl e ↦ rw e (insert_missing-keeps k v ns _ (get-append k v cs _ h))
  | inr (w, e) ↦ rw e (insert_missing-keeps k v ns cs h)
]

run_statements-Exact : (d : Database) → Exact d → Exact (run_statements d)
unfolding run_statements read_counters
run_statements-Exact d x = record {
  installed = λ t. refl;
  states = λ s m.
      get→Holds _ _ _
        (insert_missing-keeps _ _ counter_names _ (Holds→get _ _ d.counters (x.states s m)));
  bytes =
      get→Holds _ _ _ (insert_missing-keeps _ _ counter_names _ (Holds→get _ _ d.counters x.bytes));
}

backfill :
    (d : Database)
    → (after : Database) × (elim (verify_runtime_counters true (run_statements d)) [
      | none ↦ none
      | some (_, d') ↦ some d'
    ]
        ≡ some after)
      × Exact after
      × (after.jobs ≡ d.jobs)
      × (after.derivatives ≡ d.derivatives)
unfolding run_statements
backfill d =
    let d' : Database = record d { installed = λ t. true } in
    let v =
      verify_runtime_counters-Exact d' (insert_missing counter_names (read_counters d))
        (λ t. refl) in
    (
      with_counters d' v.0,
      ap
          (λ (o : Option (Drift × Database)). elim o as (λ x. Option Database) [
            | none ↦ none
            | some (_, d'') ↦ some d''
          ])
          v.1,
      v.2,
      refl,
      refl,
    )

-- _ensure_runtime_counters at any catalog: it does not raise, the counted tables stay as they are, and
-- all triggers and right counters are there afterwards; only where it finds the table, every name and
-- every trigger already there, and so recomputes nothing, must the counters have been right before.
pub ensure_runtime_counters-Exact :
    (d : Database)
    → (needs_backfill d ≡ false → Exact d)
    → (after : Database) × (ensure_runtime_counters d ≡ some after)
      × Exact after
      × (after.jobs ≡ d.jobs)
      × (after.derivatives ≡ d.derivatives)
unfolding ensure_runtime_counters run_statements
ensure_runtime_counters-Exact d complete = elim (Bool-cases (needs_backfill d)) [
  | inl e ↦ rw e (backfill d)
  | inr e ↦ rw e (run_statements d, refl, run_statements-Exact d (complete e), refl, refl)
]
