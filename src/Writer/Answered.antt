-- ===== src/Writer/Answered.antt =====
-- The steps of the writer and of its callers, and what they promise a caller: an answer.
use gallery.Base.{
  ℕ, ◌≡◌, sym, ap, subst, ◌∙◌, Bool, true, false, not, ◌||◌, Option, none, some, [], ◌∷◌, arith,
}
use gallery.Writer.Ops.{Effect, Lane, priority, normal, Op, unmade, Lifecycle, Writer, claims, pop}
use gallery.Writer.Batch.{Fault, Config, ops_of, run_batch}
use gallery.Writer.Covered.{holds, Covered, holds-append, popped, pop-Covered}
use gallery.Writer.Settled.{either-Covered}
use gallery.Writer.Held.{
  run_batch-Covered, pulled_run-Covered, pop-state, pulled_run-state, interrupted_batch-Covered,
}
use gallery.Writer.Lifecycle.{
  queued, first, exit, is_running, is_live, append_op, submit, cancel, abandon_queued, finish, stop,
  abort_writer, start, take_first, next_taken, Interruption, interrupt, pulled_run,
  interrupted_batch,
}
use gallery.Writer.Dropped.{
  abandon_queued-answers, abort_writer-answers, interrupt-Covered, interrupt-leaves,
}

-- What the callers and the thread of one writer do. An abort and a late stop fall between two batches, or
-- into the first attempt of a batch.
pub data Step {S V X : Type 0} (k : Config) : Writer S V X → Writer S V X → Type 0 where
  submits :
      {w w' : Writer S V X} (lane : Lane) (fn : S → Effect S V X) (late : Bool) (i : ℕ)
      → submit k w lane fn late ≡ queued i w'
      → Step k w w'
  cancels : {w : Writer S V X} (i : ℕ) → Step k w (cancel i w)
  runs_batch :
      {w w' : Writer S V X} (late : Bool) (op : Op S V X) (faults : ℕ → Option Fault) (pulls : ℕ)
      → take_first late w ≡ first op w'
      → Step k w (run_batch k faults pulls op w')
  runs_interrupted :
      {w w' : Writer S V X} (late : Bool) (op : Op S V X) (faults : ℕ → Option Fault) (pulls : ℕ)
      (cause : Interruption)
      → take_first late w ≡ first op w'
      → Step k w (interrupted_batch k faults pulls cause op w')
  finishes : {w : Writer S V X} (late : Bool) → take_first late w ≡ exit → Step k w (finish w)
  stops : {w : Writer S V X} → Step k w (stop w)
  abandons : {w : Writer S V X} → Step k w (abandon_queued w)
  aborts : {w : Writer S V X} → Step k w (abort_writer w)
  starts : {w w' : Writer S V X} → start w ≡ some w' → Step k w w'

-- A writer that no caller has used, over the database `s`.
abbrev pub new_writer : {S V X : Type 0} → S → Writer S V X
new_writer s = record {
  priority_queue = [];
  normal_queue = [];
  futures = λ _. unmade;
  state = Lifecycle.idle;
  abort = false;
  next_future = 0;
  db = s;
  batches = 0;
  ops = 0;
  op_failures = 0;
  retries = 0;
  batch_sizes = [];
}

pub data Reach {S V X : Type 0} (k : Config) (s : S) : Writer S V X → Type 0 where
  created : Reach k s (new_writer s)
  step : {w w' : Writer S V X} → Reach k s w → Step k w w' → Reach k s w'

module _ {S V X : Type 0} (i : ℕ) where
  answered-Covered : (w : Writer S V X) → claims (w.futures i) ≡ false → Covered i [] w
  answered-Covered w h = record { at = λ c. ground (arith, h, c) }

  abandon_queued-Covered : (w : Writer S V X) → Covered i [] w → Covered i [] (abandon_queued w)
  abandon_queued-Covered w h = answered-Covered (abandon_queued w) (abandon_queued-answers i w h)

  append_op-Covered :
      (lane : Lane) (fn : S → Effect S V X) (w : Writer S V X)
      → Covered i [] w
      → Covered i [] (append_op lane fn w)
  unfolding append_op
  append_op-Covered priority fn w h =
      let both =
        holds-append i w.priority_queue
          (record { future = w.next_future; lane = priority; fn = fn } ∷ []) in
      record { at = λ c. ground (arith, h.at, c, both) }
  append_op-Covered normal fn w h =
      let both =
        holds-append i w.normal_queue
          (record { future = w.next_future; lane = normal; fn = fn } ∷ []) in
      record { at = λ c. ground (arith, h.at, c, both) }

  submit-append_op :
      (k : Config) (w w' : Writer S V X) (lane : Lane) (fn : S → Effect S V X) (late : Bool) (j : ℕ)
      → submit k w lane fn late ≡ queued j w'
      → append_op lane fn w ≡ w'
  unfolding submit
  submit-append_op k w w' lane fn late j e = ground (arith, e)

  submit-Covered :
      (k : Config) (w w' : Writer S V X) (lane : Lane) (fn : S → Effect S V X) (late : Bool) (j : ℕ)
      → submit k w lane fn late ≡ queued j w'
      → Covered i [] w
      → Covered i [] w'
  submit-Covered k w w' lane fn late j e h =
      subst (Covered i []) made (append_op-Covered lane fn w h)
    where
      made : append_op lane fn w ≡ w'
      made = submit-append_op k w w' lane fn late j e

  cancel-Covered : (w : Writer S V X) (j : ℕ) → Covered i [] w → Covered i [] (cancel j w)
  unfolding cancel claims
  cancel-Covered w j h = record { at = λ c. ground (arith, h.at, c) }

  next_taken-first :
      (live : Bool) (p : Option (Op S V X) × Writer S V X) (op : Op S V X) (w' : Writer S V X)
      → next_taken live p ≡ first op w'
      → p ≡ (some op, w')
  unfolding next_taken
  next_taken-first live (some op', w) op w' e = cc
  next_taken-first true (none, w) op w' e = cc
  next_taken-first false (none, w) op w' e = cc

  take_first-pop :
      (w w' : Writer S V X) (late : Bool) (op : Op S V X)
      → take_first late w ≡ first op w'
      → pop w ≡ (some op, w')
  unfolding take_first
  take_first-pop w w' late op e =
      next_taken-first (is_running w.state) (pop w) op w' (ground (arith, e))

  take_first-Covered :
      (w w' : Writer S V X) (late : Bool) (op : Op S V X)
      → take_first late w ≡ first op w'
      → Covered i [] w
      → Covered i (op ∷ []) w'
  unfolding popped
  take_first-Covered w w' late op e h =
      subst (λ p. Covered i (popped i p.0 []) p.1) (take_first-pop w w' late op e)
        (pop-Covered i w [] h)

  take_first-state :
      (w w' : Writer S V X) (late : Bool) (op : Op S V X)
      → take_first late w ≡ first op w'
      → w'.state ≡ w.state
  take_first-state w w' late op e =
      ap (λ (p : Option (Op S V X) × Writer S V X). p.1.state) (sym (take_first-pop w w' late op e))
      ∙ pop-state i w

  stop-Covered : (w : Writer S V X) → Covered i [] w → Covered i [] (stop w)
  unfolding stop
  stop-Covered w h = either-Covered i (is_running w.state) _ w (record { at = h.at }) h

  abort_writer-Covered : (w : Writer S V X) → Covered i [] w → Covered i [] (abort_writer w)
  unfolding abort_writer
  abort_writer-Covered w h =
      either-Covered i (is_live w.state) _ w (abandon_queued-Covered _ (record { at = h.at })) h

  start-Covered : (w w' : Writer S V X) → start w ≡ some w' → Covered i [] w → Covered i [] w'
  unfolding start
  start-Covered w w' e h = record { at = λ c. ground (arith, e, h.at) }

  Step-Covered : (k : Config) (w w' : Writer S V X) → Step k w w' → Covered i [] w → Covered i [] w'
  Step-Covered k w w' (submits lane fn late j e) h = submit-Covered k w w' lane fn late j e h
  Step-Covered k w w' (cancels j) h = cancel-Covered w j h
  Step-Covered k w w' (runs_batch {w' = taken} late op faults pulls e) h =
      run_batch-Covered i k faults pulls op taken (take_first-Covered w taken late op e h)
  Step-Covered k w w' (runs_interrupted {w' = taken} late op faults pulls cause e) h =
      interrupted_batch-Covered i k faults pulls cause op taken (interrupt-Covered i cause)
        (take_first-Covered w taken late op e h)
  Step-Covered k w w' (finishes late e) h =
      unfold finish in record { at = (abandon_queued-Covered w h).at }
  Step-Covered k w w' stops h = stop-Covered w h
  Step-Covered k w w' abandons h = abandon_queued-Covered w h
  Step-Covered k w w' aborts h = abort_writer-Covered w h
  Step-Covered k w w' (starts e) h = start-Covered w w' e h

  Reach-Covered : (k : Config) (s : S) (w : Writer S V X) → Reach k s w → Covered i [] w
  Reach-Covered k s w created = unfold claims in record { at = λ c. cc }
  Reach-Covered k s w' (step {w = w} reached moved) =
      Step-Covered k w w' moved (Reach-Covered k s w reached)

-- At every moment that the writer and its callers can reach, between two batches, the op of each future
-- that is not yet answered or cancelled still stands in one of the two lanes: no batch, retry, submission,
-- cancellation, stop, abort or restart loses an op.
pub no_op_lost :
    {S V X : Type 0} (k : Config) (s : S) (w : Writer S V X) (i : ℕ)
    → Reach k s w
    → claims (w.futures i) ≡ true
    → (holds i w.priority_queue || holds i w.normal_queue) ≡ true
no_op_lost k s w i reached waiting =
    let covered = (Reach-Covered i k s w reached).at waiting in ground (arith, covered)

-- From every reachable state in which the writer is running or stopping, the end of its thread, and
-- between two batches an abort and a stop that gives up its wait, each leave no future unanswered: whichever
-- caller waits gets a result, a failure or its own cancellation.
pub end_answers :
    {S V X : Type 0} (k : Config) (s : S) (w : Writer S V X) (i : ℕ)
    → Reach k s w
    → is_live w.state ≡ true
    → (claims ((finish w).futures i) ≡ false)
      × (claims ((abort_writer w).futures i) ≡ false)
      × (claims ((abandon_queued w).futures i) ≡ false)
end_answers k s w i reached live =
    let covered = Reach-Covered i k s w reached in
    let dropped = abandon_queued-answers i w covered in
    (unfold finish in dropped, abort_writer-answers i w covered live, dropped)

-- While a batch runs that the thread of a running or stopping writer took in any reachable state, with any number of ops pulled in its
-- first attempt, a stop that gives up its wait leaves none unanswered but the futures of the ops that the
-- batch holds; and when the batch has ended, with its retries, and then the thread ends, these are answered
-- too. The same holds of an abort.
pub interrupted_answers :
    {S V X : Type 0} (k : Config) (s : S) (w w' : Writer S V X) (i : ℕ) (late : Bool)
    (op : Op S V X) (faults : ℕ → Option Fault) (pulls : ℕ) (cause : Interruption)
    → Reach k s w
    → take_first late w ≡ first op w'
    → is_live w.state ≡ true
    → ((not (claims ((interrupt cause (pulled_run k pulls op w').1).futures i))
          || holds i (ops_of (pulled_run k pulls op w').0.outcomes))
        ≡ true)
      × (claims ((finish (interrupted_batch k faults pulls cause op w')).futures i) ≡ false)
interrupted_answers k s w w' i late op faults pulls cause reached e live =
    let held = take_first-Covered i w w' late op e (Reach-Covered i k s w reached) in
    let still : is_live (pulled_run k pulls op w').1.state ≡ true =
      ap is_live (pulled_run-state i k pulls op w' ∙ take_first-state i w w' late op e) ∙ live in
    (
      interrupt-leaves i cause _ _ still (pulled_run-Covered i k pulls op w' held),
      unfold finish in
          abandon_queued-answers i _
            (Reach-Covered i k s _ (step reached (runs_interrupted late op faults pulls cause e))),
    )
