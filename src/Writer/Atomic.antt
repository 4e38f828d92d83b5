-- ===== src/Writer/Atomic.antt =====
-- A batch is all or nothing, and its retries do not show.
use mathlib.Core.Path.{subst₂}
use gallery.Base.{
  ℕ, zero, suc, ◌+◌, ◌≡◌, refl, sym, ap, ◌∙◌, Bool, true, false, Option, none, some, List, [], ◌∷◌,
  ◌&&◌, All, arith, Option-cases, Bool-cases, inl, inr, if-true, if-false,
}
use gallery.Writer.Ops.{Op, Writer, requeue}
use gallery.Writer.Batch.{
  Fault, Outcome, committed, faulted, ops_of, conclude, begins, next_attempt, settle_outcomes,
  fail_batch, retry,
}
use gallery.Writer.Serial.{after, serial_db, serial_outcomes, KeepsOpen, serial_run, run_ops-serial}

-- Whether some retry commits: every fault before it is transient, and it comes within `left` retries.
unfoldable pub recovers : ℕ → ℕ → (ℕ → Option Fault) → Fault → Bool
recovers zero i faults f = false
recovers (suc left) i faults f =
    let later = recovers left (i + 1) faults in
    f.transient && elim (faults (i + 1)) [ none ↦ true | some g ↦ later g ]

module _ (left i : ℕ) (faults : ℕ → Option Fault) (f : Fault) where
  recovers-hard : f.transient ≡ false → recovers (suc left) i faults f ≡ false
  unfolding recovers
  recovers-hard e = ground arith

  recovers-fine : f.transient ≡ true → faults (i + 1) ≡ none → recovers (suc left) i faults f ≡ true
  unfolding recovers
  recovers-fine e fine = rw (e, fine) refl

  recovers-fault :
      (g : Fault)
      → f.transient ≡ true
      → faults (i + 1) ≡ some g
      → recovers (suc left) i faults f ≡ recovers left (i + 1) faults g
  unfolding recovers
  recovers-fault g e again = rw (e, again) refl

module _ {S V X : Type 0} where
  -- The batch committed: the database and the futures are those of the ops run one after the other.
  abbrev pub Landed : List (Op S V X) → Writer S V X → Writer S V X → Type 0
  Landed ops w v =
      (n : ℕ) × (v
        ≡ settle_outcomes (serial_outcomes w.db ops)
            (record w { db = serial_db w.db ops; retries = n }))

  -- It did not: every op fails, and nothing else changes.
  abbrev pub Refused : List (Op S V X) → Writer S V X → Writer S V X → Type 0
  Refused ops w v =
      (n : ℕ) × (f : Fault) × (failures : List (Outcome S V X)) × (v
        ≡ fail_batch ops f failures (record w { retries = n }))

  abbrev pub Ends : Bool → List (Op S V X) → Writer S V X → Writer S V X → Type 0
  Ends true ops w v = Landed ops w v
  Ends false ops w v = Refused ops w v

  ops_of-serial : (s : S) (ops : List (Op S V X)) → ops_of (serial_outcomes s ops) ≡ ops
  unfolding serial_outcomes
  ops_of-serial s [] = refl
  ops_of-serial s (op ∷ ops) = ap (◌∷◌ op) (ops_of-serial (after op s) ops)

  pub conclude-serial :
      (fault : Option Fault) (s : S) (ops : List (Op S V X)) (w : Writer S V X)
      → conclude fault (serial_run s ops, w) ≡ elim fault [
        | none ↦ committed (serial_outcomes s ops) (record w { db = serial_db s ops })
        | some f ↦ faulted ops (serial_outcomes s ops) f w
      ]
  unfolding conclude requeue
  conclude-serial none s ops w = refl
  conclude-serial (some f) s ops w =
      ap (λ l. faulted l (serial_outcomes s ops) f w) (ops_of-serial s ops)

  next_attempt-serial :
      (fault : Option Fault) (ops : List (Op S V X)) (w : Writer S V X)
      → All KeepsOpen ops
      → next_attempt fault ops w
        ≡ begins fault ops w (elim fault [
          | none ↦ committed (serial_outcomes w.db ops) (record w { db = serial_db w.db ops })
          | some f ↦ faulted ops (serial_outcomes w.db ops) f w
        ])
  unfolding next_attempt
  next_attempt-serial fault ops w h =
      rw (run_ops-serial w.db ops h, conclude-serial fault w.db ops w) refl

  -- An attempt with a fault leaves the batch as it was.
  faulted_attempt :
      (f : Fault) (ops : List (Op S V X)) (w : Writer S V X)
      → All KeepsOpen ops
      → (failures : List (Outcome S V X)) × (next_attempt (some f) ops w ≡ faulted ops failures f w)
  unfolding begins
  faulted_attempt f ops w h = elim (Bool-cases f.at_begin) [
    | inl early ↦ ([], next_attempt-serial (some f) ops w h ∙ rw early refl)
    | inr late ↦ (serial_outcomes w.db ops, next_attempt-serial (some f) ops w h ∙ rw late refl)
  ]

  pub retry-committed :
      (left i : ℕ) (faults : ℕ → Option Fault) (outcomes : List (Outcome S V X)) (w : Writer S V X)
      → retry left i faults (committed outcomes w) ≡ settle_outcomes outcomes w
  unfolding retry
  retry-committed zero i faults outcomes w = refl
  retry-committed (suc left) i faults outcomes w = refl

  -- One more attempt.
  module _ (left i : ℕ) (faults : ℕ → Option Fault) (ops : List (Op S V X)) (w : Writer S V X)
      (h : All KeepsOpen ops) where
    abbrev counted : Writer S V X
    counted = record w { retries = w.retries + 1 }

    retry-fine :
        faults (i + 1) ≡ none
        → Landed ops w (retry left (i + 1) faults (next_attempt (faults (i + 1)) ops counted))
    unfolding begins
    retry-fine fine = (
      w.retries + 1,
      ap (λ a. retry left (i + 1) faults (next_attempt a ops counted)) fine
          ∙ ap (retry left (i + 1) faults) (next_attempt-serial none ops counted h)
          ∙ retry-committed left (i + 1) faults _ _,
    )

    retry-faulted :
        (g : Fault)
        → faults (i + 1) ≡ some g
        → (failures : List (Outcome S V X)) × (retry left
              (i + 1)
              faults
              (next_attempt (faults (i + 1)) ops counted)
            ≡ retry left (i + 1) faults (faulted ops failures g counted))
    retry-faulted g e =
        let (failures, ended_so) = faulted_attempt g ops counted h in
        (
          failures,
          ap (λ a. retry left (i + 1) faults (next_attempt a ops counted)) e
              ∙ ap (retry left (i + 1) faults) ended_so,
        )

  Ends-by :
      (ops : List (Op S V X)) (w : Writer S V X) {b b' : Bool} {v v' : Writer S V X}
      → b ≡ b'
      → v ≡ v'
      → Ends b' ops w v'
      → Ends b ops w v
  Ends-by ops w e p h = subst₂ (λ b v. Ends b ops w v) (sym e) (sym p) h

  Ends-counted :
      (b : Bool) (ops : List (Op S V X)) (w v : Writer S V X) (n : ℕ)
      → Ends b ops (record w { retries = n }) v
      → Ends b ops w v
  Ends-counted true ops w v n h = h
  Ends-counted false ops w v n h = h

  module _ (left i : ℕ) (faults : ℕ → Option Fault) (ops : List (Op S V X))
      (failures : List (Outcome S V X)) (f : Fault) (w : Writer S V X) where
    retry-soft :
        f.transient ≡ true
        → retry (suc left) i faults (faulted ops failures f w)
          ≡ retry left
              (i + 1)
              faults
              (next_attempt (faults (i + 1)) ops (record w { retries = w.retries + 1 }))
    unfolding retry
    retry-soft e = if-true f.transient _ _ e

    retry-hard :
        f.transient ≡ false
        → retry (suc left) i faults (faulted ops failures f w) ≡ fail_batch ops f failures w
    unfolding retry
    retry-hard e = if-false f.transient _ _ e

  -- A batch that faults ends as `recovers` says: committed as its ops one after the other, or refused
  -- whole.
  pub retry-Ends :
      (left i : ℕ) (faults : ℕ → Option Fault) (ops : List (Op S V X))
      (failures : List (Outcome S V X)) (f : Fault) (w : Writer S V X)
      → All KeepsOpen ops
      → Ends (recovers left i faults f) ops w (retry left i faults (faulted ops failures f w))
  retry-Ends zero i faults ops failures f w h =
      unfold retry recovers in (w.retries, f, failures, refl)
  retry-Ends (suc left) i faults ops failures f w h = elim (Bool-cases f.transient) [
    | inr hard ↦
        Ends-by ops w (recovers-hard left i faults f hard)
          (retry-hard left i faults ops failures f w hard) (w.retries, f, failures, refl)
    | inl soft ↦ elim (Option-cases (faults (i + 1))) [
      | inl fine ↦
          Ends-by ops w (recovers-fine left i faults f soft fine)
            (retry-soft left i faults ops failures f w soft) (retry-fine left i faults ops w h fine)
      | inr (g, e) ↦
          let (failures', again) = retry-faulted left i faults ops w h g e in
          Ends-by ops w (recovers-fault left i faults f g soft e)
            (retry-soft left i faults ops failures f w soft ∙ again)
            (Ends-counted (recovers left (i + 1) faults g) ops w _ (w.retries + 1) (
              retry-Ends left (i + 1) faults ops failures' g (record w { retries = w.retries + 1 })
                h))
    ]
  ]
