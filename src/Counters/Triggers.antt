-- ===== src/Counters/Triggers.antt =====
-- The statements that change a counted row, with the triggers of RUNTIME_COUNTERS_STATEMENTS
-- (backend/metadata_store/_schema_ddl.py) that fire in them.
use gallery.Base.{
  ℕ, Bool, true, false, not, ◌&&◌, ◌||◌, Option, none, some, List, [], ◌∷◌, ◌==◌, if◌then◌else◌,
}
use gallery.Base.Text.{Text, same}
use gallery.Base.Int.{ℤ, pos, eqb_ℤ, ◌+ℤ◌, ◌-ℤ◌}
use gallery.Counters.Tables.{
  JobRow, DerivativeRow, Trigger, mij_insert, mij_delete, mij_state, ready_insert, ready_delete,
  ready_update, Database, metadata_counter_name, ready_bytes_counter, coalesce_size, is_ready, held,
}

-- A table is read and changed by its key: the row, the rows without it, the rows with it changed.
module _ {A : Type 0} (key : A → ℕ) where
  unfoldable pub find : ℕ → List A → Option A
  find i [] = none
  find i (r ∷ rs) = if key r == i then some r else find i rs

  unfoldable pub remove : ℕ → List A → List A
  remove i [] = []
  remove i (r ∷ rs) = if key r == i then rs else r ∷ remove i rs

  unfoldable pub replace : ℕ → A → List A → List A
  replace i r' [] = []
  replace i r' (r ∷ rs) = if key r == i then r' ∷ rs else r ∷ replace i r' rs

-- One row of one statement. An UPDATE names what it sets: `none` for a column that is not in its SET
-- list, and for byte_size `some none` for NULL.
pub data Change : Type 0 where
  insert_job : JobRow → Change
  delete_job : ℕ → Change
  update_job : ℕ → Option Text → Change
  insert_derivative : DerivativeRow → Change
  delete_derivative : ℕ → Change
  update_derivative : ℕ → Option Text → Option (Option ℤ) → Change

-- UPDATE runtime_counters SET value = f value WHERE name = ...
unfoldable pub bump : Text → (ℤ → ℤ) → List (Text × ℤ) → List (Text × ℤ)
bump k f [] = []
bump k f ((n, v) ∷ cs) = (n, if same n k then f v else v) ∷ bump k f cs

-- The body of a trigger runs if the trigger is installed and its WHEN test holds.
unfoldable pub fire :
    Database → Trigger → Bool → (List (Text × ℤ) → List (Text × ℤ)) → Option (List (Text × ℤ))
fire d t when body =
    if d.installed t && when
    then (elim d.counters [ none ↦ none | some cs ↦ some (body cs) ])
    else d.counters

abbrev pub one_more : ℤ → ℤ
one_more v = v +ℤ pos 1

abbrev pub one_less : ℤ → ℤ
one_less v = v -ℤ pos 1

abbrev pub some_or {ℓ} : {A : Type ℓ} → A → Option A → A
some_or a none = a
some_or a (some b) = b

abbrev pub is_set {ℓ} : {A : Type ℓ} → Option A → Bool
is_set none = false
is_set (some a) = true

-- The IS comparison of two values of byte_size, NULL included.
unfoldable pub same_size : Option ℤ → Option ℤ → Bool
same_size none none = true
same_size none (some b) = false
same_size (some a) none = false
same_size (some a) (some b) = eqb_ℤ a b

-- UPDATE OF state, WHEN OLD.state IS NOT NEW.state: one less of the old, one more of the new.
unfoldable pub state_changed : JobRow → Text → List (Text × ℤ) → List (Text × ℤ)
state_changed j s cs =
    bump (metadata_counter_name s) one_more (bump (metadata_counter_name j.state) one_less cs)

unfoldable pub set_state : ℕ → Option Text → JobRow → Database → Database
set_state i s j d =
    let new = some_or j.state s in
    record d {
      jobs = replace (λ r. r.id) i (record j { state = new }) d.jobs;
      counters = fire d mij_state (is_set s && not (same j.state new)) (state_changed j new);
    }

unfoldable pub set_derivative :
    ℕ → Option Text → Option (Option ℤ) → DerivativeRow → Database → Database
set_derivative i status size r d =
    let r' : DerivativeRow = record r {
      status = some_or r.status status;
      byte_size = some_or r.byte_size size;
    } in
    record d {
      derivatives = replace (λ x. x.id) i r' d.derivatives;
      counters =
          fire d ready_update
            ((is_set status || is_set size)
              && (not (same r.status r'.status) || not (same_size r.byte_size r'.byte_size)))
            (bump ready_bytes_counter (λ v. v -ℤ held r +ℤ held r'));
    }

unfoldable pub drop_job : ℕ → JobRow → Database → Database
drop_job i j d = record d {
  jobs = remove (λ r. r.id) i d.jobs;
  counters = fire d mij_delete true (bump (metadata_counter_name j.state) one_less);
}

unfoldable pub drop_derivative : ℕ → DerivativeRow → Database → Database
drop_derivative i r d = record d {
  derivatives = remove (λ x. x.id) i d.derivatives;
  counters =
      fire d ready_delete (is_ready r)
        (bump ready_bytes_counter (λ v. v -ℤ coalesce_size r.byte_size));
}

abbrev with_row {ℓ} : {A : Type ℓ} → Option A → (A → Database → Database) → Database → Database
with_row none f d = d
with_row (some a) f d = f a d

unfoldable pub apply : Change → Database → Database
unfolding with_row
apply (insert_job j) d = record d {
  jobs = j ∷ d.jobs;
  counters = fire d mij_insert true (bump (metadata_counter_name j.state) one_more);
}
apply (delete_job i) d = with_row (find (λ r. r.id) i d.jobs) (drop_job i) d
apply (update_job i s) d = with_row (find (λ r. r.id) i d.jobs) (set_state i s) d
apply (insert_derivative r) d = record d {
  derivatives = r ∷ d.derivatives;
  counters =
      fire d ready_insert (is_ready r)
        (bump ready_bytes_counter (λ v. v +ℤ coalesce_size r.byte_size));
}
apply (delete_derivative i) d = with_row (find (λ r. r.id) i d.derivatives) (drop_derivative i) d
apply (update_derivative i status size) d =
    with_row (find (λ r. r.id) i d.derivatives) (set_derivative i status size) d

unfoldable pub apply_all : List Change → Database → Database
apply_all [] d = d
apply_all (c ∷ cs) d = apply_all cs (apply c d)
