-- ===== src/Paths/Split.antt =====
-- What _natural_sort_parts of backend/metadata_store/path_utils.py splits a text into.
use gallery.Base.{
  ℕ, ◌≡◌, refl, sym, ap, subst, ◌∙◌, inl, inr, Bool, true, false, not, ◌&&◌, none, some, List, [],
  ◌∷◌, arith, if◌then◌else◌, Bool-cases, Option-cases, some-injective,
}
use gallery.Base.Text.{Text}
use gallery.Paths.Natural.{
  CharTables, Part, number, word, split_digits, all_digits, isdigit, all_decimal, int_of,
  natural_part, parts_of, natural_sort_parts,
}
use gallery.Paths.Transitive.{alternates}

and_left : (b c : Bool) → (b && c) ≡ true → b ≡ true
and_left b c h = ground arith

and_right : (b c : Bool) → (b && c) ≡ true → c ≡ true
and_right b c h = ground arith

none_left : alternates false [] ≡ true
unfolding alternates
none_left = refl

module _ (u : CharTables) where
  unfoldable no_decimal : Text → Bool
  no_decimal [] = true
  no_decimal (c ∷ s) = not (u.decimal c) && no_decimal s

  unfoldable some_decimal : Text → Bool
  some_decimal [] = false
  some_decimal (c ∷ s) = u.decimal c && all_decimal u s

  -- Texts with no digit and runs of digits by turns.
  unfoldable pieces : Bool → List Text → Bool
  pieces true [] = false
  pieces true (s ∷ ss) = no_decimal s && pieces false ss
  pieces false [] = true
  pieces false (s ∷ ss) = some_decimal s && pieces true ss

  some-all : (s : Text) → some_decimal s ≡ true → all_decimal u s ≡ true
  unfolding some_decimal all_decimal
  some-all [] h = refl
  some-all (c ∷ s) h = h

  split-pieces : (s : Text) → pieces true (split_digits u s) ≡ true
  unfolding split_digits pieces no_decimal some_decimal all_decimal
  split-pieces [] = refl
  split-pieces (c ∷ s) = step (split_digits u s) (split-pieces s)
    where
      step :
          (ss : List Text)
          → pieces true ss ≡ true
          → pieces true (elim ss [
            | [] ↦ (c ∷ []) ∷ []
            | [] ∷ [] ↦ if u.decimal c then [] ∷ (c ∷ []) ∷ [] ∷ [] else (c ∷ []) ∷ []
            | [] ∷ d ∷ more ↦ if u.decimal c then [] ∷ (c ∷ d) ∷ more else (c ∷ []) ∷ d ∷ more
            | (x ∷ w) ∷ more ↦
                if u.decimal c then [] ∷ (c ∷ []) ∷ (x ∷ w) ∷ more else (c ∷ x ∷ w) ∷ more
          ])
            ≡ true
      step [] h = absurd (cc h)
      step ([] ∷ []) h = ground arith
      step ([] ∷ d ∷ more) h = ground (arith, some-all d)
      step ((x ∷ w) ∷ more) h = ground arith

  digits_are_digits : (s : Text) → all_decimal u s ≡ true → all_digits u s ≡ true
  unfolding all_decimal all_digits
  digits_are_digits [] h = refl
  digits_are_digits (c ∷ s) h = ground (arith, digits_are_digits s)

  -- int raises for a text with no decimal digit.
  int_of-none : (c : ℕ) (s : Text) → no_decimal (c ∷ s) ≡ true → int_of u (c ∷ s) ≡ none
  unfolding int_of no_decimal all_decimal
  int_of-none c s h = ground arith

  word_part :
      (s : Text) (p : Part)
      → no_decimal s ≡ true
      → natural_part u s ≡ some p
      → (t : Text) × (p ≡ word t)
  unfolding natural_part isdigit
  word_part [] p h k = (_, sym (some-injective _ _ k))
  word_part (c ∷ s) p h k = elim (Bool-cases (all_digits u (c ∷ s))) [
    | inl e ↦ absurd (cc (rw (e, int_of-none c s h) at k))
    | inr e ↦ (_, sym (some-injective _ _ (rw e at k)))
  ]

  number_part :
      (s : Text) (p : Part)
      → some_decimal s ≡ true
      → natural_part u s ≡ some p
      → (n : ℕ) × (p ≡ number n)
  unfolding natural_part isdigit some_decimal
  number_part [] p h k = absurd (cc h)
  number_part (c ∷ s) p h k =
      let k' = rw (digits_are_digits (c ∷ s) (some-all (c ∷ s) h)) at k in
      elim (Option-cases (int_of u (c ∷ s))) [
        | inl e ↦ absurd (cc (rw e at k'))
        | inr e ↦ (_, sym (some-injective _ _ (rw (e.1) at k')))
      ]

  joined :
      (b : Bool) (s : Text) (ss : List Text) (p : Part) (ps qs : List Part)
      → natural_part u s ≡ some p
      → ((b' : Bool) → pieces b' ss ≡ true → alternates b' ps ≡ true)
      → pieces b (s ∷ ss) ≡ true
      → p ∷ ps ≡ qs
      → alternates b qs ≡ true
  unfolding pieces alternates
  joined true s ss p ps qs e f h g =
      let w = word_part s p (and_left _ _ h) e in
      subst (λ x. alternates true x ≡ true) (ap (λ x. x ∷ ps) (sym w.1) ∙ g)
        (f false (and_right _ _ h))
  joined false s ss p ps qs e f h g =
      let n = number_part s p (and_left _ _ h) e in
      subst (λ x. alternates false x ≡ true) (ap (λ x. x ∷ ps) (sym n.1) ∙ g)
        (f true (and_right _ _ h))

  parts_of-alternate :
      (b : Bool) (ss : List Text) (ps : List Part)
      → pieces b ss ≡ true
      → parts_of u ss ≡ some ps
      → alternates b ps ≡ true
  unfolding parts_of pieces
  parts_of-alternate true [] ps h k = absurd (cc h)
  parts_of-alternate false [] ps h k =
      subst (λ x. alternates false x ≡ true) (some-injective _ _ k) none_left
  parts_of-alternate b (s ∷ ss) ps h k = elim (Option-cases (natural_part u s)) [
    | inl e ↦ absurd (cc (rw (e, parts_of) at k))
    | inr e ↦
        let k1 = rw (e.1, parts_of) at k in
        elim (Option-cases (parts_of u ss)) [
          | inl f ↦ absurd (cc (rw f at k1))
          | inr f ↦
              joined b s ss e.0 f.0 ps e.1 (λ b' g. parts_of-alternate b' ss f.0 g f.1) h
                (some-injective _ _ (rw (f.1) at k1))
        ]
  ]

  pub natural_sort_parts-alternate :
      (s : Text) (ps : List Part) → natural_sort_parts u s ≡ some ps → alternates true ps ≡ true
  unfolding natural_sort_parts
  natural_sort_parts-alternate s ps h = parts_of-alternate true _ ps (split-pieces s) h
