-- ===== src/Counters/Rows.antt =====
-- What a statement does to the counts and the sum that define the right counters.
use gallery.Base.{
  ℕ, ◌+◌, ◌≡◌, sym, ap, ◌∙◌, inl, inr, Bool, some, List, [], ◌∷◌, arith, ◌==◌, if◌then◌else◌,
  Bool-cases, some-injective,
}
use gallery.Base.Text.{Text, same}
use gallery.Base.Int.{◌+ℤ◌, ◌-ℤ◌, +ℤ_swap, +ℤ_add-sub, +ℤ_sub-add}
use gallery.Counters.Tables.{JobRow, DerivativeRow, count, held, total}
use gallery.Counters.Triggers.{find, remove, replace}

abbrev pub one_if : Bool → ℕ
one_if b = if b then 1 else 0

pub count-remove :
    (s : Text) (i : ℕ) (j : JobRow) (js : List JobRow)
    → find (λ r. r.id) i js ≡ some j
    → count s js ≡ one_if (same j.state s) + count s (remove (λ r. r.id) i js)
unfolding find remove count
count-remove s i j [] h = cc
count-remove s i j (r ∷ js) h = elim (Bool-cases (r.id == i)) [
  | inl e ↦
      rw e
        (ap (λ (q : JobRow). one_if (same q.state s) + count s js) (some-injective _ _ (rw e at h)))
  | inr e ↦ rw e (omega (arith, count-remove s i j js (rw e at h)))
]

pub count-replace :
    (s : Text) (i : ℕ) (j j' : JobRow) (js : List JobRow)
    → find (λ r. r.id) i js ≡ some j
    → one_if (same j.state s) + count s (replace (λ r. r.id) i j' js)
      ≡ one_if (same j'.state s) + count s js
unfolding find replace count
count-replace s i j j' [] h = cc
count-replace s i j j' (r ∷ js) h = elim (Bool-cases (r.id == i)) [
  | inl e ↦ rw e (
      ap (λ (q : JobRow). one_if (same q.state s) + (one_if (same j'.state s) + count s js))
        (sym (some-injective _ _ (rw e at h)))
      ∙ omega arith)
  | inr e ↦ rw e (omega (arith, count-replace s i j j' js (rw e at h)))
]

pub total-remove :
    (i : ℕ) (r : DerivativeRow) (rs : List DerivativeRow)
    → find (λ x. x.id) i rs ≡ some r
    → total rs ≡ held r +ℤ total (remove (λ x. x.id) i rs)
unfolding find remove total
total-remove i r [] h = cc
total-remove i r (x ∷ rs) h = elim (Bool-cases (x.id == i)) [
  | inl e ↦ rw e (ap (λ (q : DerivativeRow). held q +ℤ total rs) (some-injective _ _ (rw e at h)))
  | inr e ↦ rw e (rw (total-remove i r rs (rw e at h)) (+ℤ_swap _ _ _))
]

pub total-replace :
    (i : ℕ) (r r' : DerivativeRow) (rs : List DerivativeRow)
    → find (λ x. x.id) i rs ≡ some r
    → total (replace (λ x. x.id) i r' rs) ≡ total rs -ℤ held r +ℤ held r'
unfolding find replace total
total-replace i r r' [] h = cc
total-replace i r r' (x ∷ rs) h = elim (Bool-cases (x.id == i)) [
  | inl e ↦ rw e (
      sym (
        ap (λ (q : DerivativeRow). held q +ℤ total rs -ℤ held r +ℤ held r')
          (some-injective _ _ (rw e at h))
        ∙ +ℤ_add-sub (held r) (total rs) (held r')))
  | inr e ↦
      rw e (
        rw (total-replace i r r' rs (rw e at h))
          (+ℤ_sub-add (held x) (total rs) (held r) (held r')))
]
