-- ===== src/Writer/Settled.antt =====
-- `_run_batch` answers every op that it holds, and gives back the others: no op is lost.
use gallery.Base.{
  ℕ, zero, suc, ◌+◌, ◌≡◌, refl, sym, ap, ◌∙◌, Bool, true, false, ◌||◌, Option, none, some, List, [],
  ◌∷◌, ◌++◌, ◌==◌, leb, arith, if◌then◌else◌, Bool-cases, Option-cases, inl, inr,
}
use gallery.Writer.Ops.{
  Op, Result, failed, Future, Writer, settle, settle_state, claims, pop, requeue,
}
use gallery.Writer.Batch.{
  Fault, Config, Outcome, Run, Attempt, committed, faulted, ops_of, in_savepoint, run_ops, then_run,
  pull_ops, conclude, begins, next_attempt, settle_each, settle_outcomes, fail_each, failure_of,
  fail_batch, count_batch, retry,
}
use gallery.Writer.Serial.{pull_ops-step}
use gallery.Writer.Covered.{holds, Covered, Covered-by, holds-append}

settle_state-answers :
    {V X : Type 0} (x : Future V X) (r : Result V X) → claims (settle_state x r) ≡ true → ⊥
unfolding settle_state claims
settle_state-answers x r h = ground arith

module _ {V X : Type 0} (i : ℕ) where
  pub settle-answers :
      (futures : ℕ → Future V X) (j : ℕ) (r : Result V X)
      → claims (settle futures j r i) ≡ true
      → ((j == i) ≡ false) × (claims (futures i) ≡ true)
  unfolding settle
  settle-answers futures j r c = elim (Bool-cases (j == i)) [
    | inl here ↦ absurd (settle_state-answers (futures j) r (rw here at c))
    | inr away ↦ (away, rw away at c)
  ]

module _ {S V X : Type 0} (i : ℕ) where
  requeue-futures : (ops : List (Op S V X)) (w : Writer S V X) → (requeue ops w).futures ≡ w.futures
  unfolding requeue
  requeue-futures [] w = refl
  requeue-futures (op ∷ ops) w = ground (arith, requeue-futures ops w)

  requeue-holds :
      (ops : List (Op S V X)) (w : Writer S V X)
      → (holds i (requeue ops w).priority_queue || holds i (requeue ops w).normal_queue)
        ≡ (holds i w.priority_queue || (holds i w.normal_queue || holds i ops))
  unfolding requeue
  requeue-holds [] w = ground arith
  requeue-holds (op ∷ ops) w = ground (arith, requeue-holds ops w)

  requeue-Covered :
      (ops taken : List (Op S V X)) (w : Writer S V X)
      → Covered i (ops ++ taken) w
      → Covered i taken (requeue ops w)
  requeue-Covered ops taken w h =
      let same = requeue-futures ops w in
      let both = requeue-holds ops w in
      let sum = holds-append i ops taken in
      record { at = λ c. ground (arith, h.at (rw same at c), both, sum) }

  shift-holds :
      (op : Op S V X) (xs ys : List (Op S V X)) → holds i (xs ++ op ∷ ys) ≡ holds i (op ∷ xs ++ ys)
  shift-holds op xs ys = ground (arith, holds-append i xs (op ∷ ys), holds-append i xs ys)

  run_ops-holds :
      (s : S) (ops : List (Op S V X))
      → holds i ((run_ops s ops).unrun ++ ops_of (run_ops s ops).outcomes) ≡ holds i ops
  unfolding run_ops
  run_ops-holds s [] = refl
  run_ops-holds s (op ∷ ops) =
      let s' = (in_savepoint s op).1 in
      elim (Bool-cases (in_savepoint s op).2) [
        | inl still ↦ rw still (
            shift-holds op (run_ops s' ops).unrun (ops_of (run_ops s' ops).outcomes)
            ∙ ap (λ b. (op.future == i) || b) (run_ops-holds s' ops))
        | inr over ↦ rw over (ground (arith, holds-append i ops (op ∷ [])))
      ]

  pub then_run-unrun :
      (op : Op S V X) (r : Result V X × S × Bool) (more : Run S V X × Writer S V X)
      (w : Writer S V X)
      → more.0.unrun ≡ []
      → (then_run op r more w).0.unrun ≡ []
  then_run-unrun op (r, s, true) more w h = h
  then_run-unrun op (r, s, false) more w h = refl

  pub pull_ops-unrun :
      (k : Config) (pulls n : ℕ) (s : S) (w : Writer S V X) → (pull_ops k pulls n s w).0.unrun ≡ []
  pull_ops-unrun k zero n s w = unfold pull_ops run_ops in refl
  pull_ops-unrun k (suc pulls) n s w = elim (Bool-cases (leb k.batch_max n)) [
    | inl full ↦ unfold pull_ops run_ops in rw full refl
    | inr room ↦ elim (Option-cases (pop w).0) [
      | inl empty ↦ unfold pull_ops run_ops in rw room (rw empty refl)
      | inr (op, e) ↦
          let more = pull_ops-unrun k pulls (n + 1) (in_savepoint s op).1 (pop w).1 in
          rw (pull_ops-step k pulls n s w op room e) (
            then_run-unrun op (in_savepoint s op)
              (pull_ops k pulls (n + 1) (in_savepoint s op).1 (pop w).1) (pop w).1 more)
    ]
  ]

  settle_each-Covered :
      (outcomes : List (Outcome S V X)) (w : Writer S V X)
      → Covered i (ops_of outcomes) w
      → Covered i [] (settle_each outcomes w)
  unfolding settle_each settle
  settle_each-Covered [] w h = h
  settle_each-Covered (o ∷ rest) w h =
      settle_each-Covered rest _ (record {
        at = λ c. ground (arith, h.at, settle-answers i w.futures o.op.future o.result c);
      })

  fail_each-Covered :
      (ops : List (Op S V X)) (f : Fault) (failures : List (Outcome S V X)) (w : Writer S V X)
      → Covered i ops w
      → Covered i [] (fail_each ops f failures w)
  unfolding fail_each settle
  fail_each-Covered [] f failures w h = h
  fail_each-Covered (op ∷ ops) f failures w h = fail_each-Covered ops f failures _ (record {
    at = λ c.
        ground
          (arith, h.at, settle-answers i w.futures op.future (failed (failure_of op f failures)) c);
  })

  -- Every op that is not yet answered is in a lane, or held by the attempt.
  pub CoveredAttempt : Attempt S V X → Type 0
  CoveredAttempt (committed outcomes w) = Covered i (ops_of outcomes) w
  CoveredAttempt (faulted ops failures f w) = Covered i ops w

  pub conclude-Covered :
      (fault : Option Fault) (run : Run S V X) (w : Writer S V X)
      → Covered i (run.unrun ++ ops_of run.outcomes) w
      → CoveredAttempt (conclude fault (run, w))
  unfolding conclude CoveredAttempt
  conclude-Covered fault run w h =
      let back = requeue-Covered run.unrun (ops_of run.outcomes) w h in
      elim (Bool-cases run.in_transaction) [
        | inr over ↦ rw over (record { at = back.at })
        | inl still ↦ elim (Option-cases fault) [
          | inl fine ↦ rw (still, fine) (record { at = back.at })
          | inr (f, e) ↦ rw (still, e) back
        ]
      ]

  pub begins-Covered :
      (fault : Option Fault) (ops : List (Op S V X)) (w : Writer S V X) (attempt : Attempt S V X)
      → Covered i ops w
      → CoveredAttempt attempt
      → CoveredAttempt (begins fault ops w attempt)
  unfolding begins CoveredAttempt
  begins-Covered none ops w attempt h ha = ha
  begins-Covered (some f) ops w attempt h ha = elim (Bool-cases f.at_begin) [
    | inl early ↦ rw early h
    | inr late ↦ rw late ha
  ]

  settle_outcomes-Covered :
      (outcomes : List (Outcome S V X)) (w : Writer S V X)
      → Covered i (ops_of outcomes) w
      → Covered i [] (settle_outcomes outcomes w)
  unfolding settle_outcomes count_batch
  settle_outcomes-Covered outcomes w h = settle_each-Covered outcomes _ (record { at = h.at })

  fail_batch-Covered :
      (ops : List (Op S V X)) (f : Fault) (failures : List (Outcome S V X)) (w : Writer S V X)
      → Covered i ops w
      → Covered i [] (fail_batch ops f failures w)
  unfolding fail_batch count_batch
  fail_batch-Covered ops f failures w h = fail_each-Covered ops f failures _ (record { at = h.at })

  next_attempt-Covered :
      (fault : Option Fault) (ops : List (Op S V X)) (w : Writer S V X)
      → Covered i ops w
      → CoveredAttempt (next_attempt fault ops w)
  unfolding next_attempt
  next_attempt-Covered fault ops w h = begins-Covered fault ops w _ h (
      conclude-Covered fault (run_ops w.db ops) w
        (Covered-by i ops _ w (sym (run_ops-holds w.db ops)) h))

  pub either-Covered :
      (b : Bool) (v v' : Writer S V X)
      → Covered i [] v
      → Covered i [] v'
      → Covered i [] (if b then v else v')
  either-Covered true v v' h h' = h
  either-Covered false v v' h h' = h'

  pub retry-Covered :
      (left n : ℕ) (faults : ℕ → Option Fault) (attempt : Attempt S V X)
      → CoveredAttempt attempt
      → Covered i [] (retry left n faults attempt)
  unfolding CoveredAttempt retry
  retry-Covered left n faults (committed outcomes w) h = settle_outcomes-Covered outcomes w h
  retry-Covered zero n faults (faulted ops failures f w) h = fail_batch-Covered ops f failures w h
  retry-Covered (suc left) n faults (faulted ops failures f w) h =
      either-Covered f.transient _ _
        (retry-Covered left (n + 1) faults _
          (next_attempt-Covered (faults (n + 1)) ops _ (record { at = h.at })))
        (fail_batch-Covered ops f failures w h)
