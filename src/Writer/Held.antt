-- ===== src/Writer/Held.antt =====
-- What a batch holds, from its first pull to its end, with and without an interruption.
use gallery.Base.{
  ℕ, zero, suc, ◌+◌, ◌≡◌, refl, sym, ◌∙◌, inl, inr, Bool, true, false, Option, List, [], ◌∷◌, ◌++◌,
  arith, leb, Bool-cases, Option-cases,
}
use gallery.Writer.Ops.{Op, Result, Writer, pop}
use gallery.Writer.Batch.{
  Fault, Config, Run, ops_of, in_savepoint, then_run, pull_ops, conclude, begins, first_attempt,
  retry, run_batch,
}
use gallery.Writer.Serial.{pull_ops-step}
use gallery.Writer.Lifecycle.{Interruption, interrupt, pulled_run, interrupted_batch}
use gallery.Writer.Covered.{Covered, Covered-by, holds-append, step-Covered, pull_ops-Covered}
use gallery.Writer.Settled.{
  then_run-unrun, pull_ops-unrun, begins-Covered, conclude-Covered, retry-Covered,
}

module _ {S V X : Type 0} (i : ℕ) where
  pub pop-state : (w : Writer S V X) → (pop w).1.state ≡ w.state
  unfolding pop
  pop-state w = ground arith

  then_run-state :
      (op : Op S V X) (r : Result V X × S × Bool) (more : Run S V X × Writer S V X)
      (w : Writer S V X)
      → more.1.state ≡ w.state
      → (then_run op r more w).1.state ≡ w.state
  then_run-state op (r, s, true) more w h = h
  then_run-state op (r, s, false) more w h = refl

  pull_ops-state :
      (k : Config) (pulls n : ℕ) (s : S) (w : Writer S V X)
      → (pull_ops k pulls n s w).1.state ≡ w.state
  pull_ops-state k zero n s w = unfold pull_ops in refl
  pull_ops-state k (suc pulls) n s w = elim (Bool-cases (leb k.batch_max n)) [
    | inl full ↦ unfold pull_ops in rw full refl
    | inr room ↦ elim (Option-cases (pop w).0) [
      | inl empty ↦ unfold pull_ops in rw room (rw empty (pop-state w))
      | inr (op, e) ↦
          let more = pull_ops-state k pulls (n + 1) (in_savepoint s op).1 (pop w).1 in
          rw (pull_ops-step k pulls n s w op room e) (
            then_run-state op (in_savepoint s op)
              (pull_ops k pulls (n + 1) (in_savepoint s op).1 (pop w).1) (pop w).1 more
            ∙ pop-state w)
    ]
  ]

  pub pulled_run-state :
      (k : Config) (pulls : ℕ) (op : Op S V X) (w : Writer S V X)
      → (pulled_run k pulls op w).1.state ≡ w.state
  unfolding pulled_run
  pulled_run-state k pulls op w =
      let r = in_savepoint w.db op in
      then_run-state op r (pull_ops k pulls 1 r.1 w) w (pull_ops-state k pulls 1 r.1 w)

  -- The ops that the first attempt pulls are in its hands.
  pub pulled_run-Covered :
      (k : Config) (pulls : ℕ) (first : Op S V X) (w : Writer S V X)
      → Covered i (first ∷ []) w
      → Covered i (ops_of (pulled_run k pulls first w).0.outcomes) (pulled_run k pulls first w).1
  unfolding pulled_run
  pulled_run-Covered k pulls first w h =
      let r = in_savepoint w.db first in
      let more = pull_ops k pulls 1 r.1 w in
      let begun = then_run first r more w in
      Covered-by i (ops_of begun.0.outcomes ++ []) _ begun.1
        (ground (arith, holds-append i (ops_of begun.0.outcomes) []))
        (step-Covered i first r more w [] h (pull_ops-Covered i k pulls 1 r.1 w (first ∷ []) h))

  pulled_run-unrun :
      (k : Config) (pulls : ℕ) (first : Op S V X) (w : Writer S V X)
      → (pulled_run k pulls first w).0.unrun ≡ []
  unfolding pulled_run
  pulled_run-unrun k pulls first w =
      let r = in_savepoint w.db first in
      then_run-unrun i first r (pull_ops k pulls 1 r.1 w) w (pull_ops-unrun i k pulls 1 r.1 w)

  -- The rest of a batch, from the end of its pulls on.
  batch_end-Covered :
      (k : Config) (faults : ℕ → Option Fault) (first : Op S V X) (run : Run S V X)
      (w w' : Writer S V X)
      → Covered i (first ∷ []) w
      → run.unrun ≡ []
      → Covered i (ops_of run.outcomes) w'
      → Covered i [] (
          retry k.retry_count 0 faults
            (begins (faults 0) (first ∷ []) w (conclude (faults 0) (run, w'))))
  batch_end-Covered k faults first run w w' h none_back h' =
      retry-Covered i k.retry_count 0 faults _ (
        begins-Covered i (faults 0) (first ∷ []) w _ h (
          conclude-Covered i (faults 0) run w'
            (Covered-by i (ops_of run.outcomes) _ w' (sym (rw none_back refl)) h')))

  -- A batch loses no op.
  pub run_batch-Covered :
      (k : Config) (faults : ℕ → Option Fault) (pulls : ℕ) (first : Op S V X) (w : Writer S V X)
      → Covered i (first ∷ []) w
      → Covered i [] (run_batch k faults pulls first w)
  unfolding run_batch first_attempt pulled_run
  run_batch-Covered k faults pulls first w h =
      let begun = pulled_run k pulls first w in
      batch_end-Covered k faults first begun.0 w begun.1 h (pulled_run-unrun k pulls first w)
        (pulled_run-Covered k pulls first w h)

  -- An interrupted batch loses none either, when the interruption loses none.
  pub interrupted_batch-Covered :
      (k : Config) (faults : ℕ → Option Fault) (pulls : ℕ) (cause : Interruption) (first : Op S V X)
      (w : Writer S V X)
      → ((taken : List (Op S V X)) (v : Writer S V X)
          → Covered i taken v
          → Covered i taken (interrupt cause v))
      → Covered i (first ∷ []) w
      → Covered i [] (interrupted_batch k faults pulls cause first w)
  unfolding interrupted_batch
  interrupted_batch-Covered k faults pulls cause first w kept h =
      let begun = pulled_run k pulls first w in
      batch_end-Covered k faults first begun.0 (interrupt cause w) (interrupt cause begun.1)
        (kept _ w h) (pulled_run-unrun k pulls first w)
        (kept _ begun.1 (pulled_run-Covered k pulls first w h))
