-- ===== src/Writer/Order.antt =====
-- Which ops a batch takes: the priority lane before the normal one, in order inside a lane, without those
-- that were cancelled, and never more than the configured number.
use gallery.Base.{
  ℕ, zero, suc, ◌+◌, ◌-◌, ◌≡◌, ◌≤◌, refl, sym, ap, subst, ◌∙◌, true, false, Option, none, some,
  List, [], ◌∷◌, ◌++◌, leb, length, take, arith, if◌then◌else◌, Bool-cases, Option-cases, inl, inr,
  some-injective,
}
use gallery.Writer.Ops.{Op, Future, running, Writer, assign, claims, pop_lane, pop}
use gallery.Writer.Batch.{Config, ops_of, pull_ops}
use gallery.Writer.Serial.{
  serial_outcomes, after, LanesKeepOpen, collect, collect-step, pull_ops-serial,
}

-- How many more ops a batch of `n` takes, when the time lets in `pulls`.
unfoldable pub budget : Config → ℕ → ℕ → ℕ
budget k pulls n = if leb pulls (k.batch_max - n) then pulls else k.batch_max - n

budget-zero : (k : Config) (n : ℕ) → budget k 0 n ≡ 0
unfolding budget
budget-zero k n = ground arith

budget-full : (k : Config) (pulls n : ℕ) → leb k.batch_max n ≡ true → budget k pulls n ≡ 0
unfolding budget
budget-full k pulls n full = ground arith

budget-suc :
    (k : Config) (pulls n : ℕ)
    → leb k.batch_max n ≡ false
    → budget k (suc pulls) n ≡ suc (budget k pulls (n + 1))
unfolding budget
budget-suc k pulls n room = ground arith

budget-bound : (k : Config) (pulls n : ℕ) → budget k pulls n ≤ k.batch_max - n
unfolding budget
budget-bound k pulls n = ground arith

take-none : {A : Type 0} (n : ℕ) → take {A = A} n [] ≡ []
take-none zero = refl
take-none (suc n) = refl

length-take : {A : Type 0} (n : ℕ) (xs : List A) → length (take n xs) ≤ n
length-take zero xs = omega arith
length-take (suc n) [] = omega arith
length-take (suc n) (x ∷ xs) = omega (arith, length-take n xs)

module _ {S V X : Type 0} where
  -- The ops of some lane that wait, in order.
  unfoldable pub waiting : (ℕ → Future V X) → List (Op S V X) → List (Op S V X)
  waiting futures [] = []
  waiting futures (op ∷ queue) =
      let rest = waiting futures queue in if claims (futures op.future) then op ∷ rest else rest

  unfoldable pub line : Writer S V X → List (Op S V X)
  line w = waiting w.futures (w.priority_queue ++ w.normal_queue)

  head_of : Option (Op S V X) → List (Op S V X) → List (Op S V X)
  head_of none rest = []
  head_of (some op) rest = op ∷ rest

  waiting-append :
      (futures : ℕ → Future V X) (xs ys : List (Op S V X))
      → waiting futures (xs ++ ys) ≡ waiting futures xs ++ waiting futures ys
  unfolding waiting
  waiting-append futures [] ys = refl
  waiting-append futures (op ∷ xs) ys = ground (arith, waiting-append futures xs ys)

  pop_lane-waiting :
      (futures : ℕ → Future V X) (queue : List (Op S V X))
      → waiting futures queue
        ≡ head_of (pop_lane futures queue).0 (waiting futures (pop_lane futures queue).1)
  unfolding waiting head_of pop_lane
  pop_lane-waiting futures [] = refl
  pop_lane-waiting futures (op ∷ queue) = ground (arith, pop_lane-waiting futures queue)

  -- Starting an op that waits changes no op's place.
  waiting-start :
      (futures : ℕ → Future V X) (j : ℕ) (queue : List (Op S V X))
      → claims (futures j) ≡ true
      → waiting (assign futures j running) queue ≡ waiting futures queue
  unfolding waiting claims
  waiting-start futures j [] e = refl
  waiting-start futures j (op ∷ queue) e = ground (arith, waiting-start futures j queue e)

  pop_lane-claims :
      (futures : ℕ → Future V X) (queue : List (Op S V X)) (op : Op S V X)
      → (pop_lane futures queue).0 ≡ some op
      → claims (futures op.future) ≡ true
  unfolding pop_lane
  pop_lane-claims futures [] op e = cc
  pop_lane-claims futures (first ∷ queue) op e = elim (Bool-cases (claims (futures first.future))) [
    | inl taken ↦
        let same = some-injective first op (rw taken at e) in
        subst (λ o. claims (futures o.future) ≡ true) same taken
    | inr skipped ↦ pop_lane-claims futures queue op (rw skipped at e)
  ]

  lane_head :
      (futures : ℕ → Future V X) (queue : List (Op S V X)) (first : Option (Op S V X))
      → (pop_lane futures queue).0 ≡ first
      → waiting futures queue ≡ head_of first (waiting futures (pop_lane futures queue).1)
  lane_head futures queue first e = rw e at (pop_lane-waiting futures queue)

  pop-line : (w : Writer S V X) → line w ≡ head_of (pop w).0 (line (pop w).1)
  unfolding line head_of pop
  pop-line w =
      let futures = w.futures in
      let both = waiting-append futures w.priority_queue w.normal_queue in
      elim (Option-cases (pop_lane futures w.priority_queue).0) [
        | inr (op, e) ↦
            let lane = lane_head futures w.priority_queue (some op) e in
            let rest = (pop_lane futures w.priority_queue).1 in
            let kept =
              waiting-start futures op.future (rest ++ w.normal_queue)
                (pop_lane-claims futures w.priority_queue op e) in
            let after = waiting-append futures rest w.normal_queue in
            rw (e, pop)
              (both
                ∙ ap (λ xs. xs ++ waiting futures w.normal_queue) lane
                ∙ ap (λ xs. op ∷ xs) (sym after ∙ sym kept))
        | inl e ↦ elim (Option-cases (pop_lane futures w.normal_queue).0) [
          | inr (op, e') ↦
              let lane = lane_head futures w.normal_queue (some op) e' in
              let rest = (pop_lane futures w.normal_queue).1 in
              let kept =
                waiting-start futures op.future rest
                  (pop_lane-claims futures w.normal_queue op e') in
              let gone = lane_head futures w.priority_queue none e in
              rw (e, e', pop)
                (both
                  ∙ ap (λ xs. xs ++ waiting futures w.normal_queue) gone
                  ∙ lane
                  ∙ ap (λ xs. op ∷ xs) (sym kept))
          | inl e' ↦
              let gone = lane_head futures w.priority_queue none e in
              let gone' = lane_head futures w.normal_queue none e' in
              rw (e, e', pop) (both ∙ ap (λ xs. xs ++ waiting futures w.normal_queue) gone ∙ gone')
        ]
      ]

  pop-line-some :
      (w : Writer S V X) (op : Op S V X) → (pop w).0 ≡ some op → line w ≡ op ∷ line (pop w).1
  unfolding head_of
  pop-line-some w op e = rw e at (pop-line w)

  pop-line-none : (w : Writer S V X) → (pop w).0 ≡ none → line w ≡ []
  unfolding head_of
  pop-line-none w e = rw e at (pop-line w)

  collect-line :
      (k : Config) (pulls n : ℕ) (w : Writer S V X)
      → (collect k pulls n w).0 ≡ take (budget k pulls n) (line w)
  collect-line k zero n w = unfold collect in rw (budget-zero k n) refl
  collect-line k (suc pulls) n w = elim (Bool-cases (leb k.batch_max n)) [
    | inl full ↦ unfold collect in rw full (rw (budget-full k (suc pulls) n full) refl)
    | inr room ↦ elim (Option-cases (pop w).0) [
      | inl empty ↦
          unfold collect in
          rw room (rw (empty, pop-line-none w empty) (sym (take-none (budget k (suc pulls) n))))
      | inr (op, e) ↦
          rw
            (
              collect-step k pulls n w.db w op room e,
              pop-line-some w op e,
              budget-suc k pulls n room,
            )
            (ap (λ xs. op ∷ xs) (collect-line k pulls (n + 1) (pop w).1))
    ]
  ]

  ops_of-serial : (s : S) (ops : List (Op S V X)) → ops_of (serial_outcomes s ops) ≡ ops
  unfolding serial_outcomes
  ops_of-serial s [] = refl
  ops_of-serial s (op ∷ ops) = ap (λ xs. op ∷ xs) (ops_of-serial (after op s) ops)

  -- When `batch_max` is at least 1 and the ops leave their transaction open, the ops that a first attempt
  -- runs behind its first op are the foremost of those that wait, the priority lane before the normal one
  -- and each in the order of submission, as many as the time lets in, and the batch holds at most
  -- `batch_max` ops.
  pub batch_order :
      (k : Config) (pulls : ℕ) (s : S) (w : Writer S V X)
      → 1 ≤ k.batch_max
      → LanesKeepOpen w
      → (ops_of (pull_ops k pulls 1 s w).0.outcomes ≡ take (budget k pulls 1) (line w))
        × (1 + length (ops_of (pull_ops k pulls 1 s w).0.outcomes) ≤ k.batch_max)
  batch_order k pulls s w some_room lanes =
      let ran : ops_of (pull_ops k pulls 1 s w).0.outcomes ≡ take (budget k pulls 1) (line w) =
        ap (λ r. ops_of r.0.outcomes) (pull_ops-serial k pulls 1 s w lanes).0
        ∙ ops_of-serial s (collect k pulls 1 w).0
        ∙ collect-line k pulls 1 w in
      let fits = length-take (budget k pulls 1) (line w) in
      let capped = budget-bound k pulls 1 in (ran, rw ran (omega (arith, fits, capped, some_room)))
