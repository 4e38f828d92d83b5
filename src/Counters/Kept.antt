-- ===== src/Counters/Kept.antt =====
-- The triggers keep the stored counters at the recomputed values.
use gallery.Base.{
  ℕ, ◌+◌, ◌≡◌, refl, sym, ap, subst, ◌∙◌, inl, inr, Bool, true, false, not, ◌&&◌, ◌||◌, Option,
  none, some, List, [], ◌∷◌, arith, if◌then◌else◌, Bool-cases, Option-cases, Has,
}
use gallery.Base.Text.{Text, same, same_refl, same→eq}
use gallery.Base.Int.{ℤ, pos, ◌+ℤ◌, ◌-ℤ◌, +ℤ_sub, -ℤ_add, +ℤ_comm, zero-+ℤ, eqb_ℤ→eq}
use gallery.Counters.Tables.{
  JobRow, DerivativeRow, Trigger, mij_insert, mij_delete, mij_state, ready_insert, ready_delete,
  ready_update, Database, metadata_states, metadata_counter_name, ready_bytes_counter,
  coalesce_size, is_ready, held, count, total, get,
}
use gallery.Counters.Triggers.{
  find, remove, replace, bump, same_size, Change, insert_job, delete_job, update_job,
  insert_derivative, delete_derivative, update_derivative, apply, apply_all, drop_job, set_state,
  state_changed, drop_derivative, set_derivative, one_more, one_less, some_or, is_set,
}
use gallery.Counters.Bumps.{
  Holds, bump-hit, bump-miss, same-metadata_counter_name, metadata-ready, ready-metadata,
  fire-Holds, fire-idle,
}
use gallery.Counters.Rows.{one_if, count-remove, count-replace, total-remove, total-replace}

-- The table has each counter, at the value that the tables give, and every trigger is installed.
pub record Exact (d : Database) : Type 0 where
  pub installed : (t : Trigger) → d.installed t ≡ true
  pub states :
      (s : Text)
      → Has s metadata_states
      → Holds (metadata_counter_name s) (pos (count s d.jobs)) d.counters
  pub bytes : Holds ready_bytes_counter (total d.derivatives) d.counters

one_more_pos : (n : ℕ) → one_more (pos n) ≡ pos (1 + n)
unfolding ◌+ℤ◌
one_more_pos n = ground arith

one_less_pos : (n : ℕ) → one_less (pos (1 + n)) ≡ pos n
unfolding ◌-ℤ◌
one_less_pos n = ground arith

bump-more :
    (s t : Text) (n : ℕ) (cs : List (Text × ℤ))
    → get (metadata_counter_name s) cs ≡ some (pos n)
    → get (metadata_counter_name s) (bump (metadata_counter_name t) one_more cs)
      ≡ some (pos (one_if (same t s) + n))
bump-more s t n cs h = elim (Bool-cases (same t s)) [
  | inl e ↦
      rw (e, same→eq t s e)
        (bump-hit (metadata_counter_name s) one_more (pos n) cs h ∙ ap some (one_more_pos n))
  | inr e ↦ rw e (
      bump-miss (metadata_counter_name s) (metadata_counter_name t) one_more cs
        (same-metadata_counter_name t s ∙ e)
      ∙ h
      ∙ ap (λ (m : ℕ). some (pos m)) (omega arith))
]

bump-less :
    (s t : Text) (n : ℕ) (cs : List (Text × ℤ))
    → get (metadata_counter_name s) cs ≡ some (pos (one_if (same t s) + n))
    → get (metadata_counter_name s) (bump (metadata_counter_name t) one_less cs) ≡ some (pos n)
bump-less s t n cs h = elim (Bool-cases (same t s)) [
  | inl e ↦ rw (same→eq t s e) (
      bump-hit (metadata_counter_name s) one_less (pos (1 + n)) cs (rw e at h)
      ∙ ap some (one_less_pos n))
  | inr e ↦
      bump-miss (metadata_counter_name s) (metadata_counter_name t) one_less cs
        (same-metadata_counter_name t s ∙ e)
      ∙ rw e at h
      ∙ ap (λ (m : ℕ). some (pos m)) (omega arith)
]

-- A trigger that names no counter of the states leaves them alone.
bump_bytes-other :
    (s : Text) (f : ℤ → ℤ) (v : ℤ) (cs : List (Text × ℤ))
    → get (metadata_counter_name s) cs ≡ some v
    → get (metadata_counter_name s) (bump ready_bytes_counter f cs) ≡ some v
bump_bytes-other s f v cs h = bump-miss _ _ f cs (ready-metadata s) ∙ h

bump_state-other :
    (s : Text) (f : ℤ → ℤ) (v : ℤ) (cs : List (Text × ℤ))
    → get ready_bytes_counter cs ≡ some v
    → get ready_bytes_counter (bump (metadata_counter_name s) f cs) ≡ some v
bump_state-other s f v cs h = bump-miss _ _ f cs (metadata-ready s) ∙ h

-- The value of `if b then v else v`.
Holds-if :
    (k : Text) (b : Bool) (v : ℤ) (cs : Option (List (Text × ℤ)))
    → Holds k (if b then v else v) cs
    → Holds k v cs
Holds-if k true v cs h = h
Holds-if k false v cs h = h

Holds-eq :
    (k : Text) (v w : ℤ) (cs : Option (List (Text × ℤ))) → v ≡ w → Holds k v cs → Holds k w cs
Holds-eq k v w cs e h = subst (λ x. Holds k x cs) e h

insert_job-Exact : (j : JobRow) (d : Database) → Exact d → Exact (apply (insert_job j) d)
unfolding apply count
insert_job-Exact j d x = record {
  installed = x.installed;
  states = λ s m.
      fire-Holds d mij_insert true _ _ _ _ (x.installed mij_insert) (x.states s m)
        (λ cs g. bump-more s j.state (count s d.jobs) cs g);
  bytes =
      fire-Holds d mij_insert true _ _ _ _ (x.installed mij_insert) x.bytes
        (λ cs g. bump_state-other j.state one_more _ cs g);
}

drop_job-Exact :
    (i : ℕ) (j : JobRow) (d : Database)
    → find (λ r. r.id) i d.jobs ≡ some j
    → Exact d
    → Exact (drop_job i j d)
unfolding drop_job
drop_job-Exact i j d found x = record {
  installed = x.installed;
  states = λ s m.
      fire-Holds d mij_delete true _ _
        (pos (one_if (same j.state s) + count s (remove (λ r. r.id) i d.jobs))) _
        (x.installed mij_delete)
        (Holds-eq _ _ _ _ (ap pos (count-remove s i j d.jobs found)) (x.states s m))
        (λ cs g. bump-less s j.state _ cs g);
  bytes =
      fire-Holds d mij_delete true _ _ _ _ (x.installed mij_delete) x.bytes
        (λ cs g. bump_state-other j.state one_less _ cs g);
}

-- Leaving one state and entering another, `n` rows being other than the one that changes.
state_changed-count :
    (s : Text) (j : JobRow) (new : Text) (n : ℕ) (cs : List (Text × ℤ))
    → get (metadata_counter_name s) cs ≡ some (pos (one_if (same j.state s) + n))
    → get (metadata_counter_name s) (state_changed j new cs) ≡ some (pos (one_if (same new s) + n))
unfolding state_changed
state_changed-count s j new n cs h = bump-more s new n _ (bump-less s j.state n cs h)

-- An UPDATE that leaves the state as it is leaves every count as it is.
count-same :
    (s : Text) (i : ℕ) (j j' : JobRow) (js : List JobRow)
    → find (λ r. r.id) i js ≡ some j
    → same j.state j'.state ≡ true
    → count s js ≡ count s (replace (λ r. r.id) i j' js)
count-same s i j j' js found e =
    omega
      (arith, count-replace s i j j' js found, ap (λ (q : Text). one_if (same q s)) (same→eq _ _ e))

-- `mij_state` fires exactly when the state changes; a column that is not set keeps its value.
set_state-count :
    (s : Text) (i : ℕ) (o : Option Text) (j : JobRow) (d : Database)
    → find (λ r. r.id) i d.jobs ≡ some j
    → d.installed mij_state ≡ true
    → Holds (metadata_counter_name s) (pos (count s d.jobs)) d.counters
    → Holds
        (metadata_counter_name s)
        (pos (count s (set_state i o j d).jobs))
        (set_state i o j d).counters
unfolding set_state
set_state-count s i none j d found on h =
    Holds-eq _ _ _ _ (ap pos (count-same s i j j d.jobs found (same_refl j.state)))
      (fire-idle d mij_state (state_changed j j.state) _ _ on h)
set_state-count s i (some new) j d found on h =
    let j' : JobRow = record j { state = new } in
    let rest : ℕ = count s (remove (λ r. r.id) i d.jobs) in
    let before : count s d.jobs ≡ one_if (same j.state s) + rest =
      count-remove s i j d.jobs found in
    let after : one_if (same new s) + rest ≡ count s (replace (λ r. r.id) i j' d.jobs) =
      omega (arith, before, count-replace s i j j' d.jobs found) in
    elim (Bool-cases (same j.state new)) [
      | inl e ↦ rw e (
          Holds-eq _ _ _ _ (ap pos (count-same s i j j' d.jobs found e))
            (fire-idle d mij_state (state_changed j new) _ _ on h))
      | inr e ↦ rw e (
          Holds-eq _ _ _ _ (ap pos after) (
            fire-Holds d mij_state true (state_changed j new) _
              (pos (one_if (same j.state s) + rest)) _ on (Holds-eq _ _ _ _ (ap pos before) h)
              (λ cs g. state_changed-count s j new rest cs g)))
    ]

set_state-Exact :
    (i : ℕ) (o : Option Text) (j : JobRow) (d : Database)
    → find (λ r. r.id) i d.jobs ≡ some j
    → Exact d
    → Exact (set_state i o j d)
unfolding set_state state_changed
set_state-Exact i o j d found x = record {
  installed = x.installed;
  states = λ s m. set_state-count s i o j d found (x.installed mij_state) (x.states s m);
  bytes = Holds-if _ _ _ _ (
      fire-Holds d mij_state _ _ _ _ _ (x.installed mij_state) x.bytes
        (λ cs g. bump_state-other _ one_more _ _ (bump_state-other j.state one_less _ cs g)));
}

held-ready : (r : DerivativeRow) → is_ready r ≡ true → held r ≡ coalesce_size r.byte_size
unfolding held
held-ready r e = rw e

held-other : (r : DerivativeRow) → is_ready r ≡ false → held r ≡ pos 0
unfolding held
held-other r e = rw e

insert_derivative-Exact :
    (r : DerivativeRow) (d : Database) → Exact d → Exact (apply (insert_derivative r) d)
unfolding apply total
insert_derivative-Exact r d x = record {
  installed = x.installed;
  states = λ s m. Holds-if _ (is_ready r) _ _ (
      fire-Holds d ready_insert _ _ _ _ _ (x.installed ready_insert) (x.states s m)
        (λ cs g. bump_bytes-other s _ _ cs g));
  bytes = elim (Bool-cases (is_ready r)) [
    | inl e ↦ rw e (
        Holds-eq _ _ _ _
          (+ℤ_comm (total d.derivatives) (coalesce_size r.byte_size)
            ∙ ap (λ (z : ℤ). z +ℤ total d.derivatives) (sym (held-ready r e)))
          (fire-Holds d ready_insert true _ _ _ _ (x.installed ready_insert) x.bytes
            (λ cs g. bump-hit _ (λ v. v +ℤ coalesce_size r.byte_size) _ cs g)))
    | inr e ↦ rw e (
        Holds-eq _ _ _ _
          (sym (zero-+ℤ (total d.derivatives))
            ∙ ap (λ (z : ℤ). z +ℤ total d.derivatives) (sym (held-other r e)))
          (fire-idle d ready_insert _ _ _ (x.installed ready_insert) x.bytes))
  ];
}

drop_derivative-Exact :
    (i : ℕ) (r : DerivativeRow) (d : Database)
    → find (λ x. x.id) i d.derivatives ≡ some r
    → Exact d
    → Exact (drop_derivative i r d)
unfolding drop_derivative
drop_derivative-Exact i r d found x =
    let left : ℤ = total (remove (λ y. y.id) i d.derivatives) in
    record {
      installed = x.installed;
      states = λ s m. Holds-if _ (is_ready r) _ _ (
          fire-Holds d ready_delete _ _ _ _ _ (x.installed ready_delete) (x.states s m)
            (λ cs g. bump_bytes-other s _ _ cs g));
      bytes = elim (Bool-cases (is_ready r)) [
        | inl e ↦
            let gone : total d.derivatives ≡ coalesce_size r.byte_size +ℤ left =
              total-remove i r d.derivatives found ∙ ap (λ (z : ℤ). z +ℤ left) (held-ready r e) in
            rw e (
              Holds-eq _ _ _ _ (+ℤ_sub _ left) (
                fire-Holds d ready_delete true _ _ _ _ (x.installed ready_delete)
                  (Holds-eq _ _ _ _ gone x.bytes)
                  (λ cs g. bump-hit _ (λ v. v -ℤ coalesce_size r.byte_size) _ cs g)))
        | inr e ↦
            let gone : total d.derivatives ≡ pos 0 +ℤ left =
              total-remove i r d.derivatives found ∙ ap (λ (z : ℤ). z +ℤ left) (held-other r e) in
            rw e (
              fire-idle d ready_delete _ _ _ (x.installed ready_delete)
                (Holds-eq _ _ _ _ (gone ∙ zero-+ℤ left) x.bytes))
      ];
    }

same_size→eq : (a b : Option ℤ) → same_size a b ≡ true → a ≡ b
unfolding same_size
same_size→eq none none h = refl
same_size→eq none (some b) h = cc
same_size→eq (some a) none h = cc
same_size→eq (some a) (some b) h = ap some (eqb_ℤ→eq a b h)

held-eq :
    (r r' : DerivativeRow) → r.status ≡ r'.status → r.byte_size ≡ r'.byte_size → held r ≡ held r'
unfolding held
held-eq r r' e f = rw e (rw f refl)

-- The row after an UPDATE of the columns that are set.
updated : Option Text → Option (Option ℤ) → DerivativeRow → DerivativeRow
updated status size r = record r {
  status = some_or r.status status;
  byte_size = some_or r.byte_size size;
}

changed : Option Text → Option (Option ℤ) → DerivativeRow → Bool
unfolding updated
changed status size r =
    (is_set status || is_set size)
    && (not (same r.status (updated status size r).status)
        || not (same_size r.byte_size (updated status size r).byte_size))

-- Where the trigger does not fire, the row adds to the sum what it added before.
unchanged-held :
    (status : Option Text) (size : Option (Option ℤ)) (r : DerivativeRow)
    → changed status size r ≡ false
    → held r ≡ held (updated status size r)
unfolding changed updated
unchanged-held none none r h = refl
unchanged-held none (some b) r h =
    held-eq r _ refl (same_size→eq r.byte_size b (ground (arith, same_refl r.status)))
unchanged-held (some s) none r h = held-eq r _ (same→eq r.status s (ground arith)) refl
unchanged-held (some s) (some b) r h =
    held-eq r _ (same→eq r.status s (ground arith)) (same_size→eq r.byte_size b (ground arith))

set_derivative-total :
    (i : ℕ) (status : Option Text) (size : Option (Option ℤ)) (r : DerivativeRow) (d : Database)
    → find (λ x. x.id) i d.derivatives ≡ some r
    → d.installed ready_update ≡ true
    → Holds ready_bytes_counter (total d.derivatives) d.counters
    → Holds ready_bytes_counter
        (total (set_derivative i status size r d).derivatives)
        (set_derivative i status size r d).counters
unfolding set_derivative changed updated
set_derivative-total i status size r d found on h =
    let r' : DerivativeRow = updated status size r in
    let after : total (replace (λ y. y.id) i r' d.derivatives)
        ≡ total d.derivatives -ℤ held r +ℤ held r' =
      total-replace i r r' d.derivatives found in
    elim (Bool-cases (changed status size r)) [
      | inl e ↦ rw e (
          Holds-eq _ _ _ _ (sym after) (
            fire-Holds d ready_update true _ _ _ _ on h
              (λ cs g. bump-hit _ (λ v. v -ℤ held r +ℤ held r') _ cs g)))
      | inr e ↦ rw e (
          Holds-eq _ _ _ _
            (sym (
              after
              ∙ ap (λ (z : ℤ). total d.derivatives -ℤ held r +ℤ z)
                  (sym (unchanged-held status size r e))
              ∙ -ℤ_add (total d.derivatives) (held r)))
            (fire-idle d ready_update _ _ _ on h))
    ]

set_derivative-Exact :
    (i : ℕ) (status : Option Text) (size : Option (Option ℤ)) (r : DerivativeRow) (d : Database)
    → find (λ x. x.id) i d.derivatives ≡ some r
    → Exact d
    → Exact (set_derivative i status size r d)
unfolding set_derivative
set_derivative-Exact i status size r d found x = record {
  installed = x.installed;
  states = λ s m. Holds-if _ _ _ _ (
      fire-Holds d ready_update _ _ _ _ _ (x.installed ready_update) (x.states s m)
        (λ cs g. bump_bytes-other s _ _ cs g));
  bytes = set_derivative-total i status size r d found (x.installed ready_update) x.bytes;
}

apply-Exact : (c : Change) (d : Database) → Exact d → Exact (apply c d)
unfolding apply
apply-Exact (insert_job j) d x = insert_job-Exact j d x
apply-Exact (delete_job i) d x = elim (Option-cases (find (λ r. r.id) i d.jobs)) [
  | inl e ↦ rw e x
  | inr (j, e) ↦ rw e (drop_job-Exact i j d e x)
]
apply-Exact (update_job i s) d x = elim (Option-cases (find (λ r. r.id) i d.jobs)) [
  | inl e ↦ rw e x
  | inr (j, e) ↦ rw e (set_state-Exact i s j d e x)
]
apply-Exact (insert_derivative r) d x = insert_derivative-Exact r d x
apply-Exact (delete_derivative i) d x = elim (Option-cases (find (λ r. r.id) i d.derivatives)) [
  | inl e ↦ rw e x
  | inr (r, e) ↦ rw e (drop_derivative-Exact i r d e x)
]
apply-Exact (update_derivative i status size) d x =
    elim (Option-cases (find (λ r. r.id) i d.derivatives)) [
      | inl e ↦ rw e x
      | inr (r, e) ↦ rw e (set_derivative-Exact i status size r d e x)
    ]

-- In a database with all six triggers and a counter for each of the seven names, equal to what
-- compute_counters gives, the counters stay so through every sequence of inserts, deletes and updates
-- of rows of the two counted tables.
pub apply_all-Exact : (cs : List Change) (d : Database) → Exact d → Exact (apply_all cs d)
unfolding apply_all
apply_all-Exact [] d x = x
apply_all-Exact (c ∷ cs) d x = apply_all-Exact cs (apply c d) (apply-Exact c d x)
