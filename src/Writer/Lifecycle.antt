-- ===== src/Writer/Lifecycle.antt =====
-- backend/metadata_store/db_writer.py: submitting, and the life of the writer thread. A batch is one
-- step: an op that arrives while it runs is one that arrived before the pull that takes it. A batch that
-- an abort or a late stop interrupts is a step of its own.
use gallery.Base.{
  ℕ, ◌+◌, Bool, true, false, not, ◌&&◌, ◌||◌, Option, none, some, List, [], ◌∷◌, ◌++◌, ltb, length,
  if◌then◌else◌,
}
use gallery.Writer.Ops.{
  Effect, Lane, priority, normal, Op, closed, failed, Future, pending, cancelled, Lifecycle, Writer,
  assign, settle, pop,
}
use gallery.Writer.Batch.{
  Fault, Config, Run, in_savepoint, then_run, pull_ops, conclude, begins, retry,
}

-- What one round of the loop of `submit` comes to.
pub data Submission (S V X : Type 0) : Type 0 where
  queued : ℕ → Writer S V X → Submission S V X
  rejected : Submission S V X  -- DatabaseWriterClosed
  backpressure : Submission S V X  -- DatabaseWriterBackpressure
  blocked : Submission S V X  -- waits for room

-- What `_take_first` gives the thread.
pub data Taken (S V X : Type 0) : Type 0 where
  first : Op S V X → Writer S V X → Taken S V X
  exit : Taken S V X
  wait : Taken S V X

abbrev pub is_running : Lifecycle → Bool
is_running Lifecycle.running = true
is_running _ = false

abbrev is_stopping : Lifecycle → Bool
is_stopping Lifecycle.stopping = true
is_stopping _ = false

abbrev pub is_live : Lifecycle → Bool
is_live Lifecycle.running = true
is_live Lifecycle.stopping = true
is_live _ = false

module _ {S V X : Type 0} where
  unfoldable lane_of : Lane → Writer S V X → List (Op S V X)
  lane_of priority w = w.priority_queue
  lane_of normal w = w.normal_queue

  unfoldable pub append_op : Lane → (S → Effect S V X) → Writer S V X → Writer S V X
  append_op lane fn w =
      let op : Op S V X = record { future = w.next_future; lane = lane; fn = fn } in
      let made : Writer S V X = record w {
        futures = assign w.futures w.next_future pending;
        next_future = w.next_future + 1;
      } in
      elim lane [
        | priority ↦ record made { priority_queue = w.priority_queue ++ op ∷ [] }
        | normal ↦ record made { normal_queue = w.normal_queue ++ op ∷ [] }
      ]

  -- `submit` from another thread than the writer's; `late` says that its deadline has passed.
  unfoldable pub submit :
      Config → Writer S V X → Lane → (S → Effect S V X) → Bool → Submission S V X
  unfolding append_op lane_of
  submit k w lane fn late =
      if not (is_running w.state)
      then rejected
      else if ltb (length (lane_of lane w)) k.queue_max
      then queued w.next_future (append_op lane fn w)
      else if late
      then backpressure
      else blocked

  -- `future.cancel()` of a caller whose wait in `run` is over.
  unfoldable pub cancel : ℕ → Writer S V X → Writer S V X
  cancel i w = elim (w.futures i) [
    | pending ↦ record w { futures = assign w.futures i cancelled }
    | _ ↦ w
  ]

  -- `_settle(op.future, False, DatabaseWriterClosed(reason))` for each dropped op.
  unfoldable pub close_each : List (Op S V X) → (ℕ → Future V X) → ℕ → Future V X
  close_each [] futures = futures
  close_each (op ∷ ops) futures = close_each ops (settle futures op.future (failed closed))

  -- `_abandon_queued`
  unfoldable pub abandon_queued : Writer S V X → Writer S V X
  abandon_queued w = record w {
    priority_queue = [];
    normal_queue = [];
    futures = close_each (w.priority_queue ++ w.normal_queue) w.futures;
  }

  -- `_finish`, when the thread leaves its loop.
  unfoldable pub finish : Writer S V X → Writer S V X
  unfolding abandon_queued
  finish w = record (abandon_queued w) { state = Lifecycle.stopped }

  -- `stop`, up to its wait for the thread.
  unfoldable pub stop : Writer S V X → Writer S V X
  stop w = if is_running w.state then record w { state = Lifecycle.stopping } else w

  unfoldable pub abort_writer : Writer S V X → Writer S V X
  unfolding abandon_queued
  abort_writer w =
      if is_live w.state
      then abandon_queued (record w { abort = true; state = Lifecycle.stopping })
      else w

  -- `start`; the thread of a stopping writer is joined first.
  unfoldable pub start : Writer S V X → Option (Writer S V X)
  start w = elim w.state [
    | Lifecycle.running ↦ some w
    | Lifecycle.stopping ↦ none
    | _ ↦ some (record w { abort = false; state = Lifecycle.running })
  ]

  unfoldable pub next_taken : Bool → Option (Op S V X) × Writer S V X → Taken S V X
  next_taken live (some op, w) = first op w
  next_taken live (none, w) = if live then wait else exit

  -- `_take_first`; `late` says that the stop deadline has passed. The pop comes last, so that an exit
  -- takes no op.
  unfoldable pub take_first : Bool → Writer S V X → Taken S V X
  unfolding next_taken
  take_first late w =
      if w.abort || (is_stopping w.state && late)
      then exit
      else next_taken (is_running w.state) (pop w)

-- What another thread does to a batch that is running.
pub data Interruption : Type 0 where
  aborted : Interruption  -- `abort`
  gave_up : Interruption  -- `stop`, when the thread is still alive after its wait

module _ {S V X : Type 0} where
  unfoldable pub interrupt : Interruption → Writer S V X → Writer S V X
  interrupt aborted w = abort_writer w
  interrupt gave_up w = abandon_queued w

  -- The first attempt after it pulled its ops: the run of all of them, and the writer.
  unfoldable pub pulled_run : Config → ℕ → Op S V X → Writer S V X → Run S V X × Writer S V X
  pulled_run k pulls op w =
      then_run op (in_savepoint w.db op) (pull_ops k pulls 1 (in_savepoint w.db op).1 w) w

  -- `_run_batch` with an interruption after `pulls` pulls, which find nothing more in the lanes then. A
  -- BEGIN that fails comes before them.
  unfoldable pub interrupted_batch :
      Config → (ℕ → Option Fault) → ℕ → Interruption → Op S V X → Writer S V X → Writer S V X
  interrupted_batch k faults pulls cause op w =
      let (run, w') = pulled_run k pulls op w in
      retry k.retry_count 0 faults (
        begins (faults 0) (op ∷ []) (interrupt cause w)
          (conclude (faults 0) (run, interrupt cause w')))
