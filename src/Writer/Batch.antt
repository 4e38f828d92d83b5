-- ===== src/Writer/Batch.antt =====
-- backend/metadata_store/db_writer.py: one batch, `_run_batch` and what it calls. What SQLite and the
-- clock answer is given: `faults i` is the sqlite error of attempt `i`, if it has one, at BEGIN IMMEDIATE
-- or at COMMIT; `pulls` is how many more ops the time budget lets into the first attempt.
use gallery.Base.{
  ℕ, zero, suc, ◌+◌, Bool, true, false, Option, none, some, List, [], ◌∷◌, ◌==◌, leb, length, take,
  if◌then◌else◌,
}
use gallery.Writer.Ops.{
  returned, raised, ended, Op, Failure, own, batch_fault, Result, done, failed, Writer, settle, pop,
  requeue,
}

pub record Fault : Type 0 where
  pub at_begin : Bool
  pub transient : Bool  -- `_is_transient`: locked or busy
  pub code : ℕ

-- What the writer was set up with.
pub record Config : Type 0 where
  pub batch_max : ℕ
  pub queue_max : ℕ
  pub retry_count : ℕ  -- len(retry_delays)

pub record Outcome (S V X : Type 0) : Type 0 where
  pub op : Op S V X
  pub result : Result V X

-- A run through some ops: what was done, the transaction's view of the database, whether the
-- transaction is still open, and the ops that were not reached.
pub record Run (S V X : Type 0) : Type 0 where
  pub outcomes : List (Outcome S V X)
  pub view : S
  pub in_transaction : Bool
  pub unrun : List (Op S V X)

module _ {S V X : Type 0} where
  -- `_run_in_savepoint`: a failing op leaves the view as it found it. The RELEASE of an op that ended
  -- the transaction fails, so that op fails too.
  unfoldable pub in_savepoint : S → Op S V X → Result V X × S × Bool
  in_savepoint s op = elim (op.fn s) [
    | returned v s' ↦ (done v, s', true)
    | raised x ↦ (failed (own x), s, true)
    | ended x s' ↦ (failed (own x), s', false)
  ]

  abbrev push_outcome : Op S V X → Result V X → Run S V X → Run S V X
  push_outcome op r run = record run { outcomes = record { op = op; result = r } ∷ run.outcomes }

  -- The ops that a batch holds already, in order, until one ends the transaction.
  unfoldable pub run_ops : S → List (Op S V X) → Run S V X
  run_ops s [] = record { outcomes = []; view = s; in_transaction = true; unrun = [] }
  run_ops s (op ∷ ops) =
      let (r, s', open_still) = in_savepoint s op in
      let rest = run_ops s' ops in
      if open_still then push_outcome op r rest else record {
        outcomes = record { op = op; result = r } ∷ [];
        view = s';
        in_transaction = false;
        unrun = ops;
      }

  -- An op, and then the rest of the run if the transaction is still open.
  abbrev pub then_run :
      Op S V X
      → Result V X × S × Bool
      → Run S V X × Writer S V X
      → Writer S V X
      → Run S V X × Writer S V X
  then_run op (r, s', open_still) more w =
      if open_still then (push_outcome op r more.0, more.1) else (
        record {
          outcomes = record { op = op; result = r } ∷ [];
          view = s';
          in_transaction = false;
          unrun = [];
        },
        w,
      )

  -- Ops pulled from the lanes into the first attempt, which holds `n` ops already.
  unfoldable pub pull_ops : Config → ℕ → ℕ → S → Writer S V X → Run S V X × Writer S V X
  pull_ops k zero n s w = (run_ops s [], w)
  pull_ops k (suc pulls) n s w =
      let (next, w') = pop w in
      let stop : Run S V X × Writer S V X = (run_ops s [], w) in
      let drained : Run S V X × Writer S V X = (run_ops s [], w') in
      let pulled : Op S V X → Run S V X × Writer S V X = λ op.
        then_run op (in_savepoint s op) (pull_ops k pulls (n + 1) (in_savepoint s op).1 w') w' in
      if leb k.batch_max n then stop else elim next [ none ↦ drained | some op ↦ pulled op ]

-- The deque of batch sizes keeps 256.
abbrev sizes_kept : ℕ
sizes_kept = 256

-- How an attempt ended: committed, or with a sqlite error over the ops that the batch holds.
pub data Attempt (S V X : Type 0) : Type 0 where
  committed : List (Outcome S V X) → Writer S V X → Attempt S V X
  faulted : List (Op S V X) → List (Outcome S V X) → Fault → Writer S V X → Attempt S V X

module _ {S V X : Type 0} where
  abbrev pub ops_of : List (Outcome S V X) → List (Op S V X)
  ops_of [] = []
  ops_of (o ∷ rest) = o.op ∷ ops_of rest

  -- The ops that were not reached go back; then COMMIT, unless an op ended the transaction.
  unfoldable pub conclude : Option Fault → Run S V X × Writer S V X → Attempt S V X
  conclude fault (run, w) =
      let w' = requeue run.unrun w in
      let landed : Attempt S V X = committed run.outcomes (record w' { db = run.view }) in
      if run.in_transaction
      then elim fault [ none ↦ landed | some f ↦ faulted (ops_of run.outcomes) run.outcomes f w' ]
      else landed

  unfoldable pub begins :
      Option Fault → List (Op S V X) → Writer S V X → Attempt S V X → Attempt S V X
  begins none ops w attempt = attempt
  begins (some f) ops w attempt = if f.at_begin then faulted ops [] f w else attempt

  -- `_attempt` with pull, and without.
  unfoldable pub first_attempt : Config → Option Fault → ℕ → Op S V X → Writer S V X → Attempt S V X
  first_attempt k fault pulls op w = begins fault (op ∷ []) w (
      conclude fault
        (then_run op (in_savepoint w.db op) (pull_ops k pulls 1 (in_savepoint w.db op).1 w) w))

  unfoldable pub next_attempt : Option Fault → List (Op S V X) → Writer S V X → Attempt S V X
  next_attempt fault ops w = begins fault ops w (conclude fault (run_ops w.db ops, w))

  unfoldable pub count_batch : ℕ → Writer S V X → Writer S V X
  count_batch n w = record w {
    batches = w.batches + 1;
    ops = w.ops + n;
    batch_sizes = take sizes_kept (n ∷ w.batch_sizes);
  }

  unfoldable pub settle_each : List (Outcome S V X) → Writer S V X → Writer S V X
  settle_each [] w = w
  settle_each (o ∷ rest) w = settle_each rest (record w {
    futures = settle w.futures o.op.future o.result;
    op_failures = elim o.result [ done _ ↦ w.op_failures | failed _ ↦ w.op_failures + 1 ];
  })

  unfoldable pub settle_outcomes : List (Outcome S V X) → Writer S V X → Writer S V X
  unfolding count_batch
  settle_outcomes outcomes w = settle_each outcomes (count_batch (length outcomes) w)

  -- `_attempt_failures.get(id(op), exc)`: an op that failed alone keeps its own failure.
  unfoldable pub failure_of : Op S V X → Fault → List (Outcome S V X) → Failure X
  failure_of op f [] = batch_fault f.code
  failure_of op f (o ∷ rest) =
      let found = failure_of op f rest in
      elim o.result [ done _ ↦ found | failed e ↦ if o.op.future == op.future then e else found ]

  unfoldable pub fail_each :
      List (Op S V X) → Fault → List (Outcome S V X) → Writer S V X → Writer S V X
  unfolding failure_of
  fail_each [] f failures w = w
  fail_each (op ∷ ops) f failures w =
      fail_each ops f failures
        (record w { futures = settle w.futures op.future (failed (failure_of op f failures)) })

  unfoldable pub fail_batch :
      List (Op S V X) → Fault → List (Outcome S V X) → Writer S V X → Writer S V X
  unfolding count_batch
  fail_batch ops f failures w =
      let w' = count_batch (length ops) w in
      fail_each ops f failures (record w' { op_failures = w'.op_failures + length ops })

  -- The loop of `_run_batch`, with `left` retries left before attempt `i + 1`.
  unfoldable pub retry : ℕ → ℕ → (ℕ → Option Fault) → Attempt S V X → Writer S V X
  retry left i faults (committed outcomes w) = settle_outcomes outcomes w
  retry zero i faults (faulted ops failures f w) = fail_batch ops f failures w
  retry (suc left) i faults (faulted ops failures f w) =
      let again =
        retry left (i + 1) faults
          (next_attempt (faults (i + 1)) ops (record w { retries = w.retries + 1 })) in
      if f.transient then again else fail_batch ops f failures w

  unfoldable pub run_batch :
      Config → (ℕ → Option Fault) → ℕ → Op S V X → Writer S V X → Writer S V X
  run_batch k faults pulls first w =
      retry k.retry_count 0 faults (first_attempt k (faults 0) pulls first w)
