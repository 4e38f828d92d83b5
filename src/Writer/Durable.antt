-- ===== src/Writer/Durable.antt =====
-- `_run_batch` as a whole: which ops the batch holds, when it commits, and what the callers see.
use mathlib.Core.Path.{subst₃}
use gallery.Base.{
  ℕ, zero, suc, ◌+◌, ◌≡◌, refl, sym, ap, ◌∙◌, Bool, true, false, Option, none, some, List, [], ◌∷◌,
  All, arith, if◌then◌else◌, Option-cases, Bool-cases, inl, inr, if-true, if-false,
}
use gallery.Writer.Ops.{Op, Writer, pop}
use gallery.Writer.Batch.{
  Fault, Config, Attempt, committed, faulted, in_savepoint, then_run, pull_ops, conclude, begins,
  first_attempt, settle_outcomes, retry, run_batch,
}
use gallery.Writer.Serial.{
  after, serial_db, serial_outcomes, KeepsOpen, serial_run, in_savepoint-serial, LanesKeepOpen,
  collect, pull_ops-serial,
}
use gallery.Writer.Atomic.{recovers, Ends, Landed, conclude-serial, retry-committed, retry-Ends}

-- The writer commits the batch that `_run_batch` starts.
unfoldable pub commits : ℕ → (ℕ → Option Fault) → Bool
commits retries faults = elim (faults 0) [ none ↦ true | some f ↦ recovers retries 0 faults f ]

commits-some :
    (retries : ℕ) (faults : ℕ → Option Fault) (f : Fault)
    → faults 0 ≡ some f
    → commits retries faults ≡ recovers retries 0 faults f
unfolding commits
commits-some retries faults f e = rw (e, commits) refl

commits-none :
    (retries : ℕ) (faults : ℕ → Option Fault) → faults 0 ≡ none → commits retries faults ≡ true
unfolding commits
commits-none retries faults e = rw (e, commits) refl

module _ {S V X : Type 0} where
  -- The ops of the batch and the lanes after it took them: a BEGIN that fails takes no more than the first.
  unfoldable pub batch_of :
      Config → Option Fault → ℕ → Op S V X → Writer S V X → List (Op S V X) × Writer S V X
  batch_of k fault pulls first w =
      let whole : List (Op S V X) × Writer S V X =
        (first ∷ (collect k pulls 1 w).0, (collect k pulls 1 w).1) in
      let alone : List (Op S V X) × Writer S V X = (first ∷ [], w) in
      elim fault [ none ↦ whole | some f ↦ if f.at_begin then alone else whole ]

  pop-db : (w : Writer S V X) → (pop w).1.db ≡ w.db
  unfolding pop
  pop-db w = ground arith

  collect-db : (k : Config) (pulls n : ℕ) (w : Writer S V X) → (collect k pulls n w).1.db ≡ w.db
  unfolding collect
  collect-db k zero n w = refl
  collect-db k (suc pulls) n w = ground (arith, pop-db w, collect-db k pulls (n + 1) (pop w).1)

  module _ (k : Config) (pulls : ℕ) (first : Op S V X) (w : Writer S V X) (alone : KeepsOpen first)
      (lanes : LanesKeepOpen w) where
    abbrev held : List (Op S V X)
    held = first ∷ (collect k pulls 1 w).0

    abbrev w' : Writer S V X
    w' = (collect k pulls 1 w).1

    first_run :
        then_run first
          (in_savepoint w.db first)
          (pull_ops k pulls 1 (in_savepoint w.db first).1 w)
          w
        ≡ (serial_run w.db held, w')
    unfolding serial_outcomes serial_db
    first_run =
        rw (in_savepoint-serial first w.db alone)
          (rw ((pull_ops-serial k pulls 1 (after first w.db) w lanes).0) refl)

    abbrev landed_attempt : Attempt S V X
    landed_attempt = committed (serial_outcomes w.db held) (record w' { db = serial_db w.db held })

    abbrev faulted_after : Fault → Attempt S V X
    faulted_after f = faulted held (serial_outcomes w.db held) f w'

    first_attempt-serial :
        (fault : Option Fault)
        → first_attempt k fault pulls first w
          ≡ begins fault
              (first ∷ [])
              w
              (elim fault [ none ↦ landed_attempt | some f ↦ faulted_after f ])
    unfolding first_attempt
    first_attempt-serial fault =
        ap (λ r. begins fault (first ∷ []) w (conclude fault r)) first_run
        ∙ ap (begins fault (first ∷ []) w) (conclude-serial fault w.db held w')

    held-KeepsOpen : All KeepsOpen held
    held-KeepsOpen = (alone, (pull_ops-serial k pulls 1 w.db w lanes).1)

    same_db : w'.db ≡ w.db
    same_db = collect-db k pulls 1 w

    run-fine :
        (faults : ℕ → Option Fault)
        → faults 0 ≡ none
        → Landed held w' (run_batch k faults pulls first w)
    unfolding run_batch begins
    run-fine faults e = (
      w'.retries,
      ap (λ a. retry k.retry_count 0 faults (first_attempt k a pulls first w)) e
          ∙ ap (retry k.retry_count 0 faults) (first_attempt-serial none)
          ∙ retry-committed k.retry_count 0 faults _ _
          ∙ ap (λ s. settle_outcomes (serial_outcomes s held) (record w' { db = serial_db s held }))
              (sym same_db),
    )

    run-early :
        (faults : ℕ → Option Fault) (f : Fault)
        → faults 0 ≡ some f
        → f.at_begin ≡ true
        → run_batch k faults pulls first w
          ≡ retry k.retry_count 0 faults (faulted (first ∷ []) [] f w)
    unfolding run_batch begins
    run-early faults f e early =
        ap (λ a. retry k.retry_count 0 faults (first_attempt k a pulls first w)) e
        ∙ ap (retry k.retry_count 0 faults)
            (first_attempt-serial (some f) ∙ if-true f.at_begin _ _ early)

    run-late :
        (faults : ℕ → Option Fault) (f : Fault)
        → faults 0 ≡ some f
        → f.at_begin ≡ false
        → run_batch k faults pulls first w ≡ retry k.retry_count 0 faults (faulted_after f)
    unfolding run_batch begins
    run-late faults f e late =
        ap (λ a. retry k.retry_count 0 faults (first_attempt k a pulls first w)) e
        ∙ ap (retry k.retry_count 0 faults)
            (first_attempt-serial (some f) ∙ if-false f.at_begin _ _ late)

  -- How the writer stands after a batch of `w`.
  abbrev pub Reports : Writer S V X → Writer S V X → Bool → List (Op S V X) × Writer S V X → Type 0
  Reports w v b batch = Ends b batch.0 batch.1 v × (batch.1.db ≡ w.db)

  Reports-by :
      (w : Writer S V X) {v v' : Writer S V X} {b b' : Bool}
      {batch batch' : List (Op S V X) × Writer S V X}
      → v ≡ v'
      → b ≡ b'
      → batch ≡ batch'
      → Reports w v' b' batch'
      → Reports w v b batch
  Reports-by w p q r h = subst₃ (λ v b batch. Reports w v b batch) (sym p) (sym q) (sym r) h

  -- Ops that leave their transaction open are run by the writer as one batch. When some attempt commits,
  -- the database and the futures are those of the ops of the batch run one after the other, however many
  -- attempts there were; otherwise every op of the batch fails and the database is as before. The batch
  -- commits exactly when an attempt within the retries has no fault and every fault before it is transient.
  pub run_batch-Reports :
      (k : Config) (faults : ℕ → Option Fault) (pulls : ℕ) (first : Op S V X) (w : Writer S V X)
      → KeepsOpen first
      → LanesKeepOpen w
      → Reports w
          (run_batch k faults pulls first w)
          (commits k.retry_count faults)
          (batch_of k (faults 0) pulls first w)
  unfolding commits batch_of
  run_batch-Reports k faults pulls first w alone lanes = elim (Option-cases (faults 0)) [
    | inl fine ↦
        Reports-by w refl (commits-none k.retry_count faults fine)
          (ap (λ a. batch_of k a pulls first w) fine)
          (run-fine k pulls first w alone lanes faults fine, collect-db k pulls 1 w)
    | inr (f, e) ↦ elim (Bool-cases f.at_begin) [
      | inl early ↦
          Reports-by w (run-early k pulls first w alone lanes faults f e early)
            (commits-some k.retry_count faults f e)
            (ap (λ a. batch_of k a pulls first w) e ∙ if-true f.at_begin _ _ early)
            (retry-Ends k.retry_count 0 faults (first ∷ []) [] f w (alone, tt), refl)
      | inr late ↦
          Reports-by w (run-late k pulls first w alone lanes faults f e late)
            (commits-some k.retry_count faults f e)
            (ap (λ a. batch_of k a pulls first w) e ∙ if-false f.at_begin _ _ late)
            (
              retry-Ends k.retry_count 0 faults _ _ f _
                  (held-KeepsOpen k pulls first w alone lanes),
              collect-db k pulls 1 w,
            )
    ]
  ]
