-- ===== src/Writer/Serial.antt =====
-- What a batch is to do: its ops one after the other, where an op that fails changes nothing.
use gallery.Base.{
  ℕ, zero, suc, ◌+◌, ◌≡◌, refl, true, false, Option, none, some, List, [], ◌∷◌, All, arith,
  if◌then◌else◌, leb, Option-cases, Bool-cases, inl, inr,
}
use gallery.Writer.Ops.{
  returned, raised, ended, Op, own, Result, done, failed, Future, Writer, pop_lane, pop, claims,
}
use gallery.Writer.Batch.{Config, Outcome, Run, in_savepoint, run_ops, then_run, pull_ops}

module _ {S V X : Type 0} where
  unfoldable pub answer : Op S V X → S → Result V X
  answer op s = elim (op.fn s) [
    | returned v _ ↦ done v
    | raised x ↦ failed (own x)
    | ended x _ ↦ failed (own x)
  ]

  unfoldable pub after : Op S V X → S → S
  after op s = elim (op.fn s) [ returned _ s' ↦ s' | raised _ ↦ s | ended _ s' ↦ s' ]

  unfoldable pub serial_db : S → List (Op S V X) → S
  serial_db s [] = s
  serial_db s (op ∷ ops) = serial_db (after op s) ops

  unfoldable pub serial_outcomes : S → List (Op S V X) → List (Outcome S V X)
  serial_outcomes s [] = []
  serial_outcomes s (op ∷ ops) =
      record { op = op; result = answer op s } ∷ serial_outcomes (after op s) ops

  -- The op leaves the transaction that it runs in open.
  pub record KeepsOpen (op : Op S V X) : Type 0 where
    pub at : (s : S) → (in_savepoint s op).2 ≡ true

  abbrev pub serial_run : S → List (Op S V X) → Run S V X
  serial_run s ops = record {
    outcomes = serial_outcomes s ops;
    view = serial_db s ops;
    in_transaction = true;
    unrun = [];
  }

  pub in_savepoint-serial :
      (op : Op S V X) (s : S) → KeepsOpen op → in_savepoint s op ≡ (answer op s, after op s, true)
  unfolding answer after in_savepoint
  in_savepoint-serial op s h = ground (arith, h.at s)

  pub run_ops-serial :
      (s : S) (ops : List (Op S V X)) → All KeepsOpen ops → run_ops s ops ≡ serial_run s ops
  unfolding run_ops serial_db serial_outcomes
  run_ops-serial s [] h = refl
  run_ops-serial s (op ∷ ops) h =
      rw (in_savepoint-serial op s h.0, run_ops-serial (after op s) ops h.1) refl

  -- The ops that the first attempt pulls when it holds `n` already, and the lanes after that.
  unfoldable pub collect : Config → ℕ → ℕ → Writer S V X → List (Op S V X) × Writer S V X
  collect k zero n w = ([], w)
  collect k (suc pulls) n w =
      let (next, w') = pop w in
      let more = collect k pulls (n + 1) w' in
      if leb k.batch_max n
      then ([], w)
      else elim next [ none ↦ ([], w') | some op ↦ (op ∷ more.0, more.1) ]

  pub record LanesKeepOpen (w : Writer S V X) : Type 0 where
    pub priority : All KeepsOpen w.priority_queue
    pub normal : All KeepsOpen w.normal_queue

  abbrev Popped : Option (Op S V X) → Type 0
  Popped none = Unit
  Popped (some op) = KeepsOpen op

  pop_lane-KeepsOpen :
      (futures : ℕ → Future V X) (queue : List (Op S V X))
      → All KeepsOpen queue
      → Popped (pop_lane futures queue).0 × All KeepsOpen (pop_lane futures queue).1
  unfolding pop_lane
  pop_lane-KeepsOpen futures [] h = (tt, tt)
  pop_lane-KeepsOpen futures (op ∷ queue) h = elim (Bool-cases (claims (futures op.future))) [
    | inl first ↦ rw first h
    | inr later ↦ rw later (pop_lane-KeepsOpen futures queue h.1)
  ]

  pop-KeepsOpen : (w : Writer S V X) → LanesKeepOpen w → Popped (pop w).0 × LanesKeepOpen (pop w).1
  unfolding pop
  pop-KeepsOpen w h =
      let hp = pop_lane-KeepsOpen w.futures w.priority_queue h.priority in
      let hn = pop_lane-KeepsOpen w.futures w.normal_queue h.normal in
      elim (Option-cases (pop_lane w.futures w.priority_queue).0) [
        | inr (op, e) ↦ rw (e, pop) (rw e at hp.0, record { priority = hp.1; normal = h.normal })
        | inl e ↦ elim (Option-cases (pop_lane w.futures w.normal_queue).0) [
          | inr (op, e') ↦ rw (e, e', pop) (rw e' at hn.0, record { priority = tt; normal = hn.1 })
          | inl e' ↦ rw (e, e', pop) (tt, record { priority = tt; normal = tt })
        ]
      ]

  module _ (k : Config) (pulls n : ℕ) (s : S) (w : Writer S V X) (op : Op S V X)
      (room : leb k.batch_max n ≡ false) (e : (pop w).0 ≡ some op) where
    pub pull_ops-step :
        pull_ops k (suc pulls) n s w
        ≡ then_run op
            (in_savepoint s op)
            (pull_ops k pulls (n + 1) (in_savepoint s op).1 (pop w).1)
            (pop w).1
    unfolding pull_ops
    pull_ops-step = rw room (rw e refl)

    pub collect-step :
        collect k (suc pulls) n w
        ≡ (op ∷ (collect k pulls (n + 1) (pop w).1).0, (collect k pulls (n + 1) (pop w).1).1)
    unfolding collect
    collect-step = rw room (rw e refl)

  -- Pulling and running one op at a time is collecting the ops first and running them after.
  pub pull_ops-serial :
      (k : Config) (pulls n : ℕ) (s : S) (w : Writer S V X)
      → LanesKeepOpen w
      → (pull_ops k pulls n s w ≡ (serial_run s (collect k pulls n w).0, (collect k pulls n w).1))
        × All KeepsOpen (collect k pulls n w).0
  unfolding serial_outcomes serial_db
  pull_ops-serial k zero n s w h = unfold pull_ops collect run_ops in (refl, tt)
  pull_ops-serial k (suc pulls) n s w h = elim (Bool-cases (leb k.batch_max n)) [
    | inl full ↦ unfold pull_ops collect run_ops in rw full (refl, tt)
    | inr room ↦ elim (Option-cases (pop w).0) [
      | inl empty ↦ unfold pull_ops collect run_ops in rw room (rw empty (refl, tt))
      | inr (op, e) ↦
          let (first, lanes) = pop-KeepsOpen w h in
          let alone : KeepsOpen op = rw e at first in
          let (ran, kept) = pull_ops-serial k pulls (n + 1) (after op s) (pop w).1 lanes in
          rw
            (
              pull_ops-step k pulls n s w op room e,
              collect-step k pulls n s w op room e,
              in_savepoint-serial op s alone,
            )
            (rw ran (refl, (alone, kept)))
    ]
  ]
