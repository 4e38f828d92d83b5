-- ===== src/Writer/Dropped.antt =====
-- What dropping the lanes leaves unanswered: _abandon_queued of backend/metadata_store/db_writer.py, which
-- an abort, a stop that gives up and the end of the thread call.
use gallery.Base.{
  ℕ, ◌≡◌, refl, ap, ◌∙◌, inl, inr, true, false, not, ◌||◌, List, [], ◌∷◌, ◌++◌, arith, Bool-cases,
  if-true,
}
use gallery.Writer.Ops.{Op, closed, failed, Future, Lifecycle, Writer, settle, claims}
use gallery.Writer.Covered.{holds, Covered, holds-append}
use gallery.Writer.Settled.{settle-answers}
use gallery.Writer.Lifecycle.{
  is_live, close_each, abandon_queued, abort_writer, Interruption, aborted, gave_up, interrupt,
}

module _ {S V X : Type 0} (i : ℕ) where
  close_each-answers :
      (ops : List (Op S V X)) (futures : ℕ → Future V X)
      → claims (close_each ops futures i) ≡ true
      → (holds i ops ≡ false) × (claims (futures i) ≡ true)
  unfolding close_each
  close_each-answers [] futures c = (refl, c)
  close_each-answers (op ∷ ops) futures c =
      let (absent, open_still) =
        close_each-answers ops (settle futures op.future (failed closed)) c in
      let (away, open_before) = settle-answers i futures op.future (failed closed) open_still in
      (ground (arith, absent, away), open_before)

  -- What is left unanswered when the lanes are dropped is in the hands of the thread.
  abandon_queued-leaves :
      (taken : List (Op S V X)) (w : Writer S V X)
      → Covered i taken w
      → claims ((abandon_queued w).futures i) ≡ true
      → holds i taken ≡ true
  unfolding abandon_queued
  abandon_queued-leaves taken w h hanging =
      let (absent, c) = close_each-answers (w.priority_queue ++ w.normal_queue) w.futures hanging in
      let both = holds-append i w.priority_queue w.normal_queue in
      ground (arith, absent, h.at c, both)

  pub abandon_queued-answers :
      (w : Writer S V X) → Covered i [] w → claims ((abandon_queued w).futures i) ≡ false
  abandon_queued-answers w h = elim (Bool-cases (claims ((abandon_queued w).futures i))) [
    | inr answered ↦ answered
    | inl hanging ↦ absurd (cc (abandon_queued-leaves [] w h hanging))
  ]

  pub abort_writer-answers :
      (w : Writer S V X)
      → Covered i [] w
      → is_live w.state ≡ true
      → claims ((abort_writer w).futures i) ≡ false
  unfolding abort_writer
  abort_writer-answers w h live =
      let stopping : Writer S V X = record w { abort = true; state = Lifecycle.stopping } in
      ap (λ v. claims (v.futures i)) (if-true (is_live w.state) (abandon_queued stopping) w live)
      ∙ abandon_queued-answers stopping (record { at = h.at })

  left-Covered :
      (taken : List (Op S V X)) (w : Writer S V X)
      → (claims (w.futures i) ≡ true → holds i taken ≡ true)
      → Covered i taken w
  left-Covered taken w h = record { at = λ c. ground (arith, h, c) }

  abandon_taken-Covered :
      (taken : List (Op S V X)) (w : Writer S V X)
      → Covered i taken w
      → Covered i taken (abandon_queued w)
  abandon_taken-Covered taken w h =
      left-Covered taken (abandon_queued w) (abandon_queued-leaves taken w h)

  pub interrupt-Covered :
      (cause : Interruption) (taken : List (Op S V X)) (w : Writer S V X)
      → Covered i taken w
      → Covered i taken (interrupt cause w)
  unfolding interrupt abort_writer
  interrupt-Covered gave_up taken w h = abandon_taken-Covered taken w h
  interrupt-Covered aborted taken w h = elim (Bool-cases (is_live w.state)) [
    | inl live ↦ rw live (abandon_taken-Covered taken _ (record { at = h.at }))
    | inr over ↦ rw over h
  ]

  -- An interruption takes every op out of the lanes.
  pub interrupt-leaves :
      (cause : Interruption) (taken : List (Op S V X)) (w : Writer S V X)
      → is_live w.state ≡ true
      → Covered i taken w
      → (not (claims ((interrupt cause w).futures i)) || holds i taken) ≡ true
  unfolding interrupt
  interrupt-leaves gave_up taken w live h = ground (arith, abandon_queued-leaves taken w h)
  interrupt-leaves aborted taken w live h =
      let stopping : Writer S V X = record w { abort = true; state = Lifecycle.stopping } in
      let left = abandon_queued-leaves taken stopping (record { at = h.at }) in
      unfold abort_writer in rw live (ground (arith, left))
