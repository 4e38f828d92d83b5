-- ===== src/Writer/Ops.antt =====
-- backend/metadata_store/db_writer.py: the ops, their futures and their two lanes. `S` is what the
-- database holds, `V` what an op returns and `X` an exception of its own.
use gallery.Base.{ℕ, Bool, true, false, Option, none, some, List, [], ◌∷◌, ◌==◌, if◌then◌else◌}

-- What an op did to the transaction that it ran in.
pub data Effect (S V X : Type 0) : Type 0 where
  returned : V → S → Effect S V X
  raised : X → Effect S V X
  ended : X → S → Effect S V X  -- it ended the transaction itself, and left the database as given

pub data Lane : Type 0 where
  priority normal : Lane

pub record Op (S V X : Type 0) : Type 0 where
  pub future : ℕ
  pub lane : Lane
  pub fn : S → Effect S V X

pub data Failure (X : Type 0) : Type 0 where
  own : X → Failure X  -- the op's own exception
  batch_fault : ℕ → Failure X  -- the sqlite error that ended its batch
  closed : Failure X  -- DatabaseWriterClosed

pub data Result (V X : Type 0) : Type 0 where
  done : V → Result V X
  failed : Failure X → Result V X

-- concurrent.futures.Future; `unmade` is one that `submit` has not made yet.
pub data Future (V X : Type 0) : Type 0 where
  unmade pending running cancelled : Future V X
  settled : Result V X → Future V X

pub data Lifecycle : Type 0 where
  idle running stopping stopped : Lifecycle

pub record Writer (S V X : Type 0) : Type 0 where
  pub priority_queue : List (Op S V X)
  pub normal_queue : List (Op S V X)
  pub futures : ℕ → Future V X
  pub state : Lifecycle
  pub abort : Bool
  pub next_future : ℕ  -- names the futures that `submit` makes
  pub db : S  -- what is committed
  pub batches : ℕ
  pub ops : ℕ
  pub op_failures : ℕ
  pub retries : ℕ
  pub batch_sizes : List ℕ  -- newest first; the deque keeps the newest 256

module _ {A : Type 0} where
  abbrev pub assign : (ℕ → A) → ℕ → A → ℕ → A
  assign f i a j = if i == j then a else f j

module _ {V X : Type 0} where
  -- `_settle`: a future that is settled or cancelled stays as it is.
  unfoldable pub settle_state : Future V X → Result V X → Future V X
  settle_state unmade r = unmade
  settle_state pending r = settled r
  settle_state running r = settled r
  settle_state cancelled r = cancelled
  settle_state (settled old) r = settled old

  unfoldable pub settle : (ℕ → Future V X) → ℕ → Result V X → ℕ → Future V X
  unfolding settle_state
  settle futures i r = assign futures i (settle_state (futures i) r)

  -- `future.running() or future.set_running_or_notify_cancel()`. No lane holds an op whose future is
  -- settled or unmade.
  unfoldable pub claims : Future V X → Bool
  claims unmade = false
  claims pending = true
  claims running = true
  claims cancelled = false
  claims (settled r) = false

module _ {S V X : Type 0} where
  -- The first op of one lane whose future was not cancelled, and the ops behind it.
  unfoldable pub pop_lane : (ℕ → Future V X) → List (Op S V X) → Option (Op S V X) × List (Op S V X)
  pop_lane futures [] = (none, [])
  pop_lane futures (op ∷ queue) =
      let rest = pop_lane futures queue in
      if claims (futures op.future) then (some op, queue) else rest

  start_op : Writer S V X → Op S V X → Writer S V X
  start_op w op = record w { futures = assign w.futures op.future running }

  -- `_pop_locked`: the priority lane first, in order inside a lane.
  unfoldable pub pop : Writer S V X → Option (Op S V X) × Writer S V X
  unfolding start_op
  pop w =
      let (first, priority_rest) = pop_lane w.futures w.priority_queue in
      let (second, normal_rest) = pop_lane w.futures w.normal_queue in
      elim first [
        | some op ↦ (some op, start_op (record w { priority_queue = priority_rest }) op)
        | none ↦ elim second [
          | some op ↦
              (some op, start_op (record w { priority_queue = []; normal_queue = normal_rest }) op)
          | none ↦ (none, record w { priority_queue = []; normal_queue = [] })
        ]
      ]

  -- `_requeue_unrun`: back to the front of their lanes, in order.
  unfoldable pub requeue : List (Op S V X) → Writer S V X → Writer S V X
  requeue [] w = w
  requeue (op ∷ ops) w =
      let w' = requeue ops w in
      elim op.lane [
        | priority ↦ record w' { priority_queue = op ∷ w'.priority_queue }
        | normal ↦ record w' { normal_queue = op ∷ w'.normal_queue }
      ]
