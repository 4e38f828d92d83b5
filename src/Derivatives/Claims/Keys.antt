-- ===== src/Derivatives/Claims/Keys.antt =====
-- Tables whose keys descend, and the entries of lists.
use gallery.Base.{
  ℕ, ◌≡◌, ◌<◌, refl, sym, ◌∙◌, ◌==◌, Bool, List, [], ◌∷◌, ◌++◌, ◌⊎◌, All, Has, arith, Bool-cases,
  inl, inr,
}
use gallery.Derivatives.Catalog.{Job, update_job}
use gallery.Derivatives.Claims.{update_where}

-- Keys of a table, newest first.
unfoldable pub Descending : ℕ → List Job → Type 0
Descending bound [] = Unit
Descending bound (j ∷ rest) = (j.id < bound) × Descending j.id rest

below_bound :
    (bound : ℕ) (j : Job) (jobs : List Job) → Descending bound jobs → Has j jobs → j.id < bound
unfolding Descending
below_bound bound j [] d h = elim h [ ]
below_bound bound j (i ∷ rest) d (inl e) = rw e d.0
below_bound bound j (i ∷ rest) d (inr h) = omega (arith, d.0, below_bound i.id j rest d.1 h)

below_self : (n : ℕ) → n < n → ⊥
below_self n h = omega (arith, h)

-- A key names one row.
pub one_row :
    (bound : ℕ) (j k : Job) (jobs : List Job)
    → Descending bound jobs
    → Has j jobs
    → Has k jobs
    → j.id ≡ k.id
    → j ≡ k
unfolding Descending
one_row bound j k [] d h h' same = elim h [ ]
one_row bound j k (i ∷ rest) d (inl e) (inl e') same = e ∙ sym e'
one_row bound j k (i ∷ rest) d (inl e) (inr h) same =
    let under = below_bound i.id k rest d.1 h in
    let same' : i.id ≡ k.id = rw e at same in absurd (below_self i.id (omega (arith, under, same')))
one_row bound j k (i ∷ rest) d (inr h) (inl e) same =
    let under = below_bound i.id j rest d.1 h in
    let same' : j.id ≡ i.id = rw e at same in absurd (below_self i.id (omega (arith, under, same')))
one_row bound j k (i ∷ rest) d (inr h) (inr h') same = one_row i.id j k rest d.1 h h' same

pub Descending-update :
    (p : Job → Bool) (f : Job → Job) (bound : ℕ) (jobs : List Job)
    → ((j : Job) → (f j).id ≡ j.id)
    → Descending bound jobs
    → Descending bound (update_where p f jobs)
unfolding Descending update_where
Descending-update p f bound [] keeps d = tt
Descending-update p f bound (j ∷ rest) keeps d = elim (Bool-cases (p j)) [
  | inl e ↦ rw (e, keeps j) (d.0, Descending-update p f j.id rest keeps d.1)
  | inr e ↦ rw e (d.0, Descending-update p f j.id rest keeps d.1)
]

pub map-Has :
    {P Q : Job → Type 0} (jobs : List Job)
    → ((j : Job) → Has j jobs → P j → Q j)
    → All P jobs
    → All Q jobs
map-Has [] f h = tt
map-Has {Q = Q} (j ∷ rest) f h =
    (f j (inl refl) h.0, map-Has {Q = Q} rest (λ i at. f i (inr at)) h.1)

pub Has-append : {A : Type 0} (x : A) (xs ys : List A) → Has x (xs ++ ys) → Has x xs ⊎ Has x ys
Has-append x [] ys h = inr h
Has-append x (y ∷ xs) ys (inl e) = inl (inl e)
Has-append x (y ∷ xs) ys (inr h) = elim (Has-append x xs ys h) [
  | inl a ↦ inl (inr a)
  | inr b ↦ inr b
]

pub Descending-raise :
    (i : ℕ) (f : Job → Job) (bound : ℕ) (jobs : List Job)
    → ((j : Job) → (f j).id ≡ j.id)
    → Descending bound jobs
    → Descending bound (update_job i f jobs)
unfolding Descending update_job
Descending-raise i f bound [] keeps d = tt
Descending-raise i f bound (j ∷ rest) keeps d = elim (Bool-cases (j.id == i)) [
  | inl e ↦ rw e (rw (keeps j) d)
  | inr e ↦ rw e (d.0, Descending-raise i f j.id rest keeps d.1)
]
