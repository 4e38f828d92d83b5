-- ===== src/Writer/Scenarios.antt =====
-- A writer over a counter: a queued deposit, a failing op, and a COMMIT that finds the database busy once.
use gallery.Base.{
  ℕ, ◌+◌, ◌≡◌, ◌≢◌, ◌≤◌, refl, true, false, not, ◌||◌, Option, none, some, [], ◌∷◌, ◌==◌,
  if◌then◌else◌, arith, length, take,
}
use gallery.Writer.Ops.{
  Effect, returned, raised, priority, normal, Op, done, pending, settled, Writer, Lifecycle, claims,
  assign, settle, pop, pop_lane, requeue,
}
use gallery.Writer.Batch.{
  Fault, Config, in_savepoint, run_batch, pull_ops, ops_of, retry, first_attempt, begins, conclude,
  run_ops, next_attempt, settle_outcomes, settle_each,
}
use gallery.Writer.Serial.{KeepsOpen, LanesKeepOpen}
use gallery.Writer.Durable.{commits, batch_of, Reports, run_batch-Reports}
use gallery.Writer.Results.{InDatabase, result_durable}
use gallery.Writer.Lifecycle.{
  start, submit, finish, abort_writer, abandon_queued, first, take_first, gave_up, interrupt,
  pulled_run, interrupted_batch,
}
use gallery.Writer.Covered.{holds}
use gallery.Writer.Answered.{
  Reach, created, step, submits, starts, new_writer, no_op_lost, end_answers, interrupted_answers,
}
use gallery.Writer.Order.{budget, line, batch_order}

abbrev Counter : Type 0
Counter = Writer ℕ ℕ ℕ

abbrev deposit : ℕ → ℕ → Effect ℕ ℕ ℕ
deposit n s = returned s (s + n)

abbrev fails : ℕ → Effect ℕ ℕ ℕ
fails s = raised 7

abbrev config : Config
config = record { batch_max = 4; queue_max = 2; retry_count = 2 }

-- The first COMMIT is refused as busy.
abbrev busy_once : ℕ → Option Fault
busy_once i =
    if i == 0 then some (record { at_begin = false; transient = true; code = 5 }) else none

abbrev first_op : Op ℕ ℕ ℕ
first_op = record { future = 0; lane = normal; fn = deposit 10 }

abbrev second_op : Op ℕ ℕ ℕ
second_op = record { future = 1; lane = normal; fn = fails }

abbrev third_op : Op ℕ ℕ ℕ
third_op = record { future = 2; lane = priority; fn = deposit 5 }

abbrev counter : Counter
counter = record (new_writer 100) {
  priority_queue = third_op ∷ [];
  normal_queue = second_op ∷ [];
  futures = λ _. pending;
  state = Lifecycle.running;
  next_future = 3;
}

first_op-KeepsOpen : KeepsOpen first_op
first_op-KeepsOpen = record { at = λ s. unfold in_savepoint in refl }

counter-LanesKeepOpen : LanesKeepOpen counter
counter-LanesKeepOpen = record {
  priority = (record { at = λ s. unfold in_savepoint in refl }, tt);
  normal = (record { at = λ s. unfold in_savepoint in refl }, tt);
}

run_batch-Reports_example :
    Reports counter
      (run_batch config busy_once 3 first_op counter)
      (commits 2 busy_once)
      (batch_of config (busy_once 0) 3 first_op counter)
run_batch-Reports_example =
    run_batch-Reports config busy_once 3 first_op counter first_op-KeepsOpen counter-LanesKeepOpen

deposited : (run_batch config busy_once 3 first_op counter).futures 0 ≡ settled (done 100)
unfolding run_batch retry first_attempt begins conclude in_savepoint pull_ops pop pop_lane claims
    run_ops next_attempt settle_outcomes settle_each settle requeue
deposited = refl

pending_before : counter.futures 0 ≢ settled (done 100)
pending_before e = cc

result_durable_example :
    InDatabase 0 100 counter.db
      (batch_of config (busy_once 0) 3 first_op counter).0
      (run_batch config busy_once 3 first_op counter)
result_durable_example =
    result_durable 0 100 config busy_once 3 first_op counter first_op-KeepsOpen
      counter-LanesKeepOpen deposited pending_before

abbrev started : Counter
started = record (new_writer 100) { state = Lifecycle.running }

abbrev waiting_one : Counter
waiting_one = record started {
  normal_queue = first_op ∷ [];
  futures = assign started.futures 0 pending;
  next_future = 1;
}

started_reached : Reach config 100 started
unfolding start
started_reached = step created (starts refl)

waiting_reached : Reach config 100 waiting_one
unfolding submit
waiting_reached = step started_reached (submits normal (deposit 10) false 0 refl)

waits_first : claims (waiting_one.futures 0) ≡ true
unfolding claims
waits_first = refl

no_op_lost_example : (holds 0 waiting_one.priority_queue || holds 0 waiting_one.normal_queue) ≡ true
no_op_lost_example = no_op_lost config 100 waiting_one 0 waiting_reached waits_first

end_answers_example :
    (claims ((finish waiting_one).futures 0) ≡ false)
    × (claims ((abort_writer waiting_one).futures 0) ≡ false)
    × (claims ((abandon_queued waiting_one).futures 0) ≡ false)
end_answers_example = end_answers config 100 waiting_one 0 waiting_reached refl

abbrev waiting_two : Counter
waiting_two = record waiting_one {
  normal_queue = first_op ∷ record { future = 1; lane = normal; fn = deposit 3 } ∷ [];
  futures = assign waiting_one.futures 1 pending;
  next_future = 2;
}

two_reached : Reach config 100 waiting_two
unfolding submit
two_reached = step waiting_reached (submits normal (deposit 3) false 1 refl)

taken_one : take_first false waiting_two ≡ first first_op (pop waiting_two).1
unfolding take_first pop pop_lane claims
taken_one = refl

-- The thread holds the first op when a stop gives up; the second is dropped.
interrupted_answers_example :
    ((not (
          claims
            ((interrupt gave_up (pulled_run config 0 first_op (pop waiting_two).1).1).futures 1))
        || holds 1 (ops_of (pulled_run config 0 first_op (pop waiting_two).1).0.outcomes))
      ≡ true)
    × (claims (
          (finish
              (interrupted_batch config busy_once 0 gave_up first_op (pop waiting_two).1)).futures
            1)
        ≡ false)
interrupted_answers_example =
    interrupted_answers config 100 waiting_two (pop waiting_two).1 1 false first_op busy_once 0
      gave_up two_reached taken_one refl

batch_order_example :
    (ops_of (pull_ops config 3 1 100 counter).0.outcomes ≡ take (budget config 3 1) (line counter))
    × (1 + length (ops_of (pull_ops config 3 1 100 counter).0.outcomes) ≤ 4)
batch_order_example = batch_order config 3 100 counter (omega arith) counter-LanesKeepOpen
