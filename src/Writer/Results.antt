-- ===== src/Writer/Results.antt =====
-- What a result that a caller sees says of the database.
use gallery.Base.{
  ℕ, zero, suc, ◌+◌, ◌≡◌, refl, ap, subst, ◌∙◌, ◌≢◌, ◌⊎◌, inl, inr, Bool, true, false, Option, List,
  [], ◌∷◌, arith, ◌==◌, Bool-cases,
}
use gallery.Writer.Ops.{
  Op, Result, Future, unmade, pending, running, cancelled, done, settled, settle, settle_state,
  Writer, pop,
}
use gallery.Writer.Batch.{
  Fault, Config, Outcome, fail_batch, fail_each, count_batch, settle_each, settle_outcomes,
  run_batch,
}
use gallery.Writer.Serial.{KeepsOpen, LanesKeepOpen, collect, serial_db, serial_outcomes}
use gallery.Writer.Atomic.{Landed, Ends}
use gallery.Writer.Durable.{commits, batch_of, run_batch-Reports}

module _ {V X : Type 0} (v : V) where
  settle_state-result :
      (x : Future V X) (r : Result V X)
      → settle_state x r ≡ settled (done v)
      → (x ≡ settled (done v)) ⊎ (r ≡ done v)
  unfolding settle_state
  settle_state-result unmade r h = inl h
  settle_state-result pending r h = inr cc
  settle_state-result running r h = inr cc
  settle_state-result cancelled r h = inl h
  settle_state-result (settled old) r h = inl h

  settle-result :
      (i j : ℕ) (r : Result V X) (futures : ℕ → Future V X)
      → settle futures j r i ≡ settled (done v)
      → (futures i ≡ settled (done v)) ⊎ ((j ≡ i) × (r ≡ done v))
  unfolding settle
  settle-result i j r futures h = elim (Bool-cases (j == i)) [
    | inr away ↦ inl (rw away at h)
    | inl here ↦ elim (settle_state-result (futures j) r (rw here at h)) [
      | inl before ↦ inl (ground (arith, here, before))
      | inr now ↦ inr (ground arith, now)
    ]
  ]

module _ {S V X : Type 0} (i : ℕ) (v : V) where
  abbrev HasResult : Writer S V X → Type 0
  HasResult w = w.futures i ≡ settled (done v)

  fail_each-HasResult :
      (ops : List (Op S V X)) (f : Fault) (failures : List (Outcome S V X)) (w : Writer S V X)
      → HasResult (fail_each ops f failures w)
      → HasResult w
  unfolding fail_each settle
  fail_each-HasResult [] f failures w h = h
  fail_each-HasResult (op ∷ ops) f failures w h =
      ground (arith, fail_each-HasResult ops f failures _ h)

  pop-HasResult : (w : Writer S V X) → HasResult (pop w).1 → HasResult w
  unfolding pop
  pop-HasResult w h = ground arith

  collect-HasResult :
      (k : Config) (pulls n : ℕ) (w : Writer S V X)
      → HasResult (collect k pulls n w).1
      → HasResult w
  unfolding collect
  collect-HasResult k zero n w h = h
  collect-HasResult k (suc pulls) n w h =
      ground (arith, pop-HasResult w, collect-HasResult k pulls (n + 1) (pop w).1)

  batch_of-HasResult :
      (k : Config) (fault : Option Fault) (pulls : ℕ) (first : Op S V X) (w : Writer S V X)
      → HasResult (batch_of k fault pulls first w).1
      → HasResult w
  unfolding batch_of
  batch_of-HasResult k fault pulls first w h = ground (arith, collect-HasResult k pulls 1 w)

  fail_batch-HasResult :
      (ops : List (Op S V X)) (f : Fault) (failures : List (Outcome S V X)) (w : Writer S V X)
      → HasResult (fail_batch ops f failures w)
      → HasResult w
  unfolding fail_batch count_batch
  fail_batch-HasResult ops f failures w h = fail_each-HasResult ops f failures _ h

  -- Some op of the run has the future and returned the value.
  abbrev pub Answered : List (Outcome S V X) → Type 0
  Answered [] = ⊥
  Answered (o ∷ rest) = ((o.op.future ≡ i) × (o.result ≡ done v)) ⊎ Answered rest

  settle_each-Answered :
      (outcomes : List (Outcome S V X)) (w : Writer S V X)
      → HasResult (settle_each outcomes w)
      → HasResult w ⊎ Answered outcomes
  unfolding settle_each
  settle_each-Answered [] w h = inl h
  settle_each-Answered (o ∷ rest) w h = elim (settle_each-Answered rest _ h) [
    | inr later ↦ inr (inr later)
    | inl now ↦ elim (settle-result v i o.op.future o.result w.futures now) [
      | inl before ↦ inl before
      | inr here ↦ inr (inl here)
    ]
  ]

  settle_each-db :
      (outcomes : List (Outcome S V X)) (w : Writer S V X) → (settle_each outcomes w).db ≡ w.db
  unfolding settle_each
  settle_each-db [] w = refl
  settle_each-db (o ∷ rest) w = settle_each-db rest _

  -- The database holds the serial run of a batch, in which the op of the future returned the value.
  abbrev pub InDatabase : S → List (Op S V X) → Writer S V X → Type 0
  InDatabase s ops w = (w.db ≡ serial_db s ops) × Answered (serial_outcomes s ops)

  settle_outcomes-Answered :
      (outcomes : List (Outcome S V X)) (w : Writer S V X)
      → HasResult (settle_outcomes outcomes w)
      → HasResult w ⊎ Answered outcomes
  unfolding settle_outcomes count_batch
  settle_outcomes-Answered outcomes w h = settle_each-Answered outcomes _ h

  settle_outcomes-db :
      (outcomes : List (Outcome S V X)) (w : Writer S V X) → (settle_outcomes outcomes w).db ≡ w.db
  unfolding settle_outcomes count_batch
  settle_outcomes-db outcomes w = settle_each-db outcomes _

  Landed-InDatabase :
      (ops : List (Op S V X)) (w u : Writer S V X)
      → Landed ops w u
      → HasResult u
      → HasResult w ⊎ InDatabase w.db ops u
  Landed-InDatabase ops w u (n, e) h =
      elim (settle_outcomes-Answered (serial_outcomes w.db ops) _ (subst HasResult e h)) [
        | inl before ↦ inl before
        | inr answered ↦ inr (
          ap (λ (x : Writer S V X). x.db) e ∙ settle_outcomes-db (serial_outcomes w.db ops) _,
          answered,
        )
      ]

  -- When a future has a result after a batch that it did not have before, the write is in the database:
  -- the database after the batch is that of the ops of the batch run one after the other on the database
  -- before it, and in this run the op of the future returns the result. The ops leave their transaction
  -- open.
  pub result_durable :
      (k : Config) (faults : ℕ → Option Fault) (pulls : ℕ) (first : Op S V X) (w : Writer S V X)
      → KeepsOpen first
      → LanesKeepOpen w
      → (run_batch k faults pulls first w).futures i ≡ settled (done v)
      → w.futures i ≢ settled (done v)
      → InDatabase w.db (batch_of k (faults 0) pulls first w).0 (run_batch k faults pulls first w)
  result_durable k faults pulls first w alone lanes seen unseen =
      let reports = run_batch-Reports k faults pulls first w alone lanes in
      let batch = batch_of k (faults 0) pulls first w in
      elim (ends_result (commits k.retry_count faults) batch.0 batch.1 _ reports.0 seen) [
        | inl before ↦ absurd (unseen (batch_of-HasResult k (faults 0) pulls first w before))
        | inr durable ↦
            subst (λ s. InDatabase s batch.0 (run_batch k faults pulls first w)) reports.1 durable
      ]
    where
      ends_result :
          (b : Bool) (ops : List (Op S V X)) (w u : Writer S V X)
          → Ends b ops w u
          → HasResult u
          → HasResult w ⊎ InDatabase w.db ops u
      ends_result true ops w u e h = Landed-InDatabase ops w u e h
      ends_result false ops w u (n, f, failures, e) h =
          inl (fail_batch-HasResult ops f failures _ (subst HasResult e h))
