-- ===== src/Paths/Collation.antt =====
-- The comparison of _compare_natural_sql on lists of parts, with its arguments exchanged.
use gallery.Base.{
  zero, suc, ◌≡◌, refl, inl, inr, true, false, not, List, [], ◌∷◌, arith, Bool-cases,
}
use gallery.Base.Text.{Text, same}
use gallery.Base.Int.{ℤ, pos, negsuc}
use gallery.Paths.Natural.{Part, number, word, text_ltb, compare_texts, compare_part, compare_parts}

pub text_ltb_irrefl : (s : Text) → text_ltb s s ≡ false
unfolding text_ltb
text_ltb_irrefl [] = refl
text_ltb_irrefl (c ∷ s) = ground (arith, text_ltb_irrefl s)

pub text_ltb_trans :
    (s t v : Text) → text_ltb s t ≡ true → text_ltb t v ≡ true → text_ltb s v ≡ true
unfolding text_ltb
text_ltb_trans s [] v h k = absurd (cc h)
text_ltb_trans s (d ∷ t) [] h k = absurd (cc k)
text_ltb_trans [] (d ∷ t) (e ∷ v) h k = refl
text_ltb_trans (c ∷ s) (d ∷ t) (e ∷ v) h k = ground (arith, text_ltb_trans s t v)

-- Of two different texts one is less.
text_ltb_swap : (s t : Text) → same s t ≡ false → text_ltb t s ≡ not (text_ltb s t)
unfolding text_ltb same
text_ltb_swap [] [] h = absurd (cc h)
text_ltb_swap [] (d ∷ t) h = refl
text_ltb_swap (c ∷ s) [] h = refl
text_ltb_swap (c ∷ s) (d ∷ t) h = ground (arith, text_ltb_swap s t)

same_comm : (s t : Text) → same s t ≡ same t s
unfolding same
same_comm [] [] = refl
same_comm [] (d ∷ t) = refl
same_comm (c ∷ s) [] = refl
same_comm (c ∷ s) (d ∷ t) = ground (arith, same_comm s t)

unfoldable pub negate : ℤ → ℤ
negate (pos zero) = pos 0
negate (pos (suc n)) = negsuc n
negate (negsuc n) = pos (suc n)

compare_texts_swap :
    (s t : Text) (rest : ℤ) → compare_texts t s (negate rest) ≡ negate (compare_texts s t rest)
unfolding compare_texts negate
compare_texts_swap s t rest = elim (Bool-cases (same s t)) [
  | inl e ↦ rw (same_comm t s, e) refl
  | inr e ↦ elim (Bool-cases (text_ltb s t)) [
    | inl k ↦ rw (same_comm t s, e, text_ltb_swap s t e, k) refl
    | inr k ↦ rw (same_comm t s, e, text_ltb_swap s t e, k) refl
  ]
]

compare_part_swap :
    (p q : Part) (rest : ℤ) → compare_part q p (negate rest) ≡ negate (compare_part p q rest)
unfolding compare_part negate
compare_part_swap (number m) (number n) rest = ground arith
compare_part_swap (number m) (word t) rest = compare_texts_swap _ t rest
compare_part_swap (word s) (number n) rest = compare_texts_swap s _ rest
compare_part_swap (word s) (word t) rest = compare_texts_swap s t rest

negate-zero : pos 0 ≡ negate (pos 0)
unfolding negate
negate-zero = refl

pub compare_parts_swap : (ps qs : List Part) → compare_parts qs ps ≡ negate (compare_parts ps qs)
unfolding compare_parts
compare_parts_swap [] [] = negate-zero
compare_parts_swap [] (q ∷ qs) = rw (compare_parts_swap [] qs) (compare_part_swap (word []) q _)
compare_parts_swap (p ∷ ps) [] = rw (compare_parts_swap ps []) (compare_part_swap p (word []) _)
compare_parts_swap (p ∷ ps) (q ∷ qs) = rw (compare_parts_swap ps qs) (compare_part_swap p q _)
