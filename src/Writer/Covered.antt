-- ===== src/Writer/Covered.antt =====
-- No op is lost by a batch: a future that is not yet answered belongs to an op that is in a lane, or in
-- the hands of the writer thread.
use gallery.Base.{
  ℕ, zero, suc, ◌+◌, ◌≡◌, refl, Bool, true, false, ◌||◌, Option, none, some, List, [], ◌∷◌, ◌++◌,
  ◌==◌, leb, arith, Bool-cases, Option-cases, inl, inr,
}
use gallery.Writer.Ops.{Op, Result, Future, Writer, claims, pop_lane, pop}
use gallery.Writer.Serial.{pull_ops-step}
use gallery.Writer.Batch.{Config, Run, ops_of, run_ops, then_run, pull_ops}

module _ {S V X : Type 0} (i : ℕ) where
  -- Some op of the list is the one whose future is `i`.
  abbrev pub holds : List (Op S V X) → Bool
  holds [] = false
  holds (op ∷ ops) = (op.future == i) || holds ops

  abbrev pub waits : Writer S V X → Bool
  waits w = claims (w.futures i)

  -- When `i` is not yet answered, its op is in a lane or one of `taken`.
  pub record Covered (taken : List (Op S V X)) (w : Writer S V X) : Type 0 where
    pub at :
        waits w ≡ true → (holds w.priority_queue || (holds w.normal_queue || holds taken)) ≡ true

  abbrev holds_first : Option (Op S V X) → Bool
  holds_first none = false
  holds_first (some op) = op.future == i

  pop_lane-holds :
      (futures : ℕ → Future V X) (queue : List (Op S V X))
      → claims (futures i) ≡ true
      → holds queue ≡ true
      → (holds (pop_lane futures queue).1 || holds_first (pop_lane futures queue).0) ≡ true
  unfolding pop_lane
  pop_lane-holds futures [] e h = cc
  pop_lane-holds futures (op ∷ queue) e h = ground (arith, pop_lane-holds futures queue e)

  unfoldable pub popped : Option (Op S V X) → List (Op S V X) → List (Op S V X)
  popped none taken = taken
  popped (some op) taken = op ∷ taken

  pop_lane-empty :
      (futures : ℕ → Future V X) (queue : List (Op S V X))
      → (pop_lane futures queue).0 ≡ none
      → (pop_lane futures queue).1 ≡ []
  unfolding pop_lane
  pop_lane-empty futures [] h = refl
  pop_lane-empty futures (op ∷ queue) h = ground (arith, pop_lane-empty futures queue)

  -- A lane, as its pop sees it.
  from_lane :
      (futures : ℕ → Future V X) (queue : List (Op S V X)) (first : Option (Op S V X))
      → (pop_lane futures queue).0 ≡ first
      → claims (futures i) ≡ true
      → holds queue ≡ true
      → (holds (pop_lane futures queue).1 || holds_first first) ≡ true
  from_lane futures queue first e c h = rw e at (pop_lane-holds futures queue c h)

  from_empty :
      (futures : ℕ → Future V X) (queue : List (Op S V X))
      → (pop_lane futures queue).0 ≡ none
      → claims (futures i) ≡ true
      → holds queue ≡ false
  from_empty futures queue e c = elim (Bool-cases (holds queue)) [
    | inr absent ↦ absent
    | inl present ↦
        let found = from_lane futures queue none e c present in
        let none_left = pop_lane-empty futures queue e in ground (arith, found, none_left)
  ]

  pub pop-Covered :
      (w : Writer S V X) (taken : List (Op S V X))
      → Covered taken w
      → Covered (popped (pop w).0 taken) (pop w).1
  unfolding popped pop
  pop-Covered w taken h = elim (Option-cases (pop_lane w.futures w.priority_queue).0) [
    | inr (op, e) ↦
        let lane = from_lane w.futures w.priority_queue (some op) e in
        rw (e, pop) (record { at = λ c. ground (arith, lane, h.at) })
    | inl e ↦ elim (Option-cases (pop_lane w.futures w.normal_queue).0) [
      | inr (op, e') ↦
          let gone = from_empty w.futures w.priority_queue e in
          let lane = from_lane w.futures w.normal_queue (some op) e' in
          rw (e, e', pop) (record { at = λ c. ground (arith, lane, gone, h.at) })
      | inl e' ↦
          let gone = from_empty w.futures w.priority_queue e in
          let gone' = from_empty w.futures w.normal_queue e' in
          rw (e, e', pop) (record { at = λ c. ground (arith, gone, gone', h.at) })
    ]
  ]

  pub holds-append : (xs ys : List (Op S V X)) → holds (xs ++ ys) ≡ (holds xs || holds ys)
  holds-append [] ys = refl
  holds-append (op ∷ xs) ys = ground (arith, holds-append xs ys)

  pub Covered-by :
      (xs ys : List (Op S V X)) (w : Writer S V X)
      → holds xs ≡ holds ys
      → Covered xs w
      → Covered ys w
  Covered-by xs ys w e h = record { at = rw e at h.at }

  pub step-Covered :
      (op : Op S V X) (r : Result V X × S × Bool) (more : Run S V X × Writer S V X)
      (w : Writer S V X) (taken : List (Op S V X))
      → Covered (op ∷ taken) w
      → Covered (ops_of more.0.outcomes ++ op ∷ taken) more.1
      → Covered (ops_of (then_run op r more w).0.outcomes ++ taken) (then_run op r more w).1
  step-Covered op (r, s, true) more w taken now later =
      Covered-by _ _ more.1 (moved (ops_of more.0.outcomes)) later
    where
      moved : (xs : List (Op S V X)) → holds (xs ++ op ∷ taken) ≡ holds (op ∷ xs ++ taken)
      moved xs = ground (arith, holds-append xs (op ∷ taken), holds-append xs taken)
  step-Covered op (r, s, false) more w taken now later = now

  pub pull_ops-Covered :
      (k : Config) (pulls n : ℕ) (s : S) (w : Writer S V X) (taken : List (Op S V X))
      → Covered taken w
      → Covered (ops_of (pull_ops k pulls n s w).0.outcomes ++ taken) (pull_ops k pulls n s w).1
  pull_ops-Covered k zero n s w taken h = unfold pull_ops run_ops in h
  pull_ops-Covered k (suc pulls) n s w taken h = elim (Bool-cases (leb k.batch_max n)) [
    | inl full ↦ unfold pull_ops run_ops in rw full h
    | inr room ↦ elim (Option-cases (pop w).0) [
      | inl empty ↦
          let left : Covered taken (pop w).1 =
            unfold popped in rw empty at (pop-Covered w taken h) in
          unfold pull_ops run_ops in rw room (rw empty left)
      | inr (op, e) ↦
          let left : Covered (op ∷ taken) (pop w).1 =
            unfold popped in rw e at (pop-Covered w taken h) in
          rw (pull_ops-step k pulls n s w op room e) (
            step-Covered op _ _ _ taken left
              (pull_ops-Covered k pulls (n + 1) _ (pop w).1 (op ∷ taken) left))
    ]
  ]
