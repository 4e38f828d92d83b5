-- ===== src/Paths/Transitive.antt =====
-- The comparison of _compare_natural_sql on three lists that alternate between words and numbers.
use gallery.Base.{
  ℕ, zero, suc, ◌<◌, ◌+◌, ◌≡◌, refl, sym, subst, ◌∙◌, ◌⊎◌, inl, inr, Bool, true, false, List, [],
  ◌∷◌, ◌/◌, ◌%◌, arith, ltb, Bool-cases,
}
use gallery.Base.Text.{Text, same, same→eq, same_refl}
use gallery.Base.Int.{ℤ, pos, negsuc}
use gallery.Paths.Natural.{
  Part, number, word, text_ltb, decimal_digits, part_text, compare_texts, compare_part,
  compare_parts,
}
use gallery.Paths.Collation.{text_ltb_irrefl, text_ltb_trans}

-- Words and numbers by turns, a word last; the flag says that a word is first.
unfoldable pub alternates : Bool → List Part → Bool
alternates true [] = false
alternates true (word s ∷ ps) = alternates false ps
alternates true (number n ∷ ps) = false
alternates false [] = true
alternates false (word s ∷ ps) = false
alternates false (number n ∷ ps) = alternates true ps

-- The first differing round decides.
texts_less :
    (s t : Text) (rest : ℤ)
    → compare_texts s t rest ≡ negsuc 0
    → (text_ltb s t ≡ true) ⊎ ((s ≡ t) × (rest ≡ negsuc 0))
unfolding compare_texts
texts_less s t rest h = elim (Bool-cases (same s t)) [
  | inl e ↦ inr (same→eq s t e, rw e at h)
  | inr e ↦ elim (Bool-cases (text_ltb s t)) [
    | inl k ↦ inl k
    | inr k ↦ absurd (cc (rw (e, k) at h))
  ]
]

less_texts : (s t : Text) (rest : ℤ) → text_ltb s t ≡ true → compare_texts s t rest ≡ negsuc 0
unfolding compare_texts
less_texts s t rest h = elim (Bool-cases (same s t)) [
  | inl e ↦ absurd (cc (h, text_ltb_irrefl s, same→eq s t e))
  | inr e ↦ rw (e, h) refl
]

equal_texts : (s : Text) (rest : ℤ) → compare_texts s s rest ≡ rest
unfolding compare_texts
equal_texts s rest = rw (same_refl s) refl

texts_trans :
    (s t v : Text) (x y z : ℤ)
    → (x ≡ negsuc 0 → y ≡ negsuc 0 → z ≡ negsuc 0)
    → compare_texts s t x ≡ negsuc 0
    → compare_texts t v y ≡ negsuc 0
    → compare_texts s v z ≡ negsuc 0
texts_trans s t v x y z f h k = elim (texts_less s t x h) [
  | inl a ↦ elim (texts_less t v y k) [
    | inl b ↦ less_texts s v z (text_ltb_trans s t v a b)
    | inr b ↦ less_texts s v z (subst (λ w. text_ltb s w ≡ true) b.0 a)
  ]
  | inr a ↦ elim (texts_less t v y k) [
    | inl b ↦ less_texts s v z (subst (λ w. text_ltb w v ≡ true) (sym a.0) b)
    | inr b ↦ subst (λ w. compare_texts s w z ≡ negsuc 0) (a.0 ∙ b.0) (equal_texts s z ∙ f a.1 b.1)
  ]
]

-- Fuel beyond the number changes none of its digits.
digits_enough :
    (fuel n : ℕ) (ds : Text) → n < fuel → decimal_digits (suc fuel) n ds ≡ decimal_digits fuel n ds
unfolding decimal_digits
digits_enough zero n ds h = ground arith
digits_enough (suc fuel) n ds h = elim (Bool-cases (ltb n 10)) [
  | inl e ↦ rw e refl
  | inr e ↦ rw e (digits_enough fuel (n / 10) ((48 + n % 10) ∷ ds) (smaller n fuel h e))
]
  where
    smaller : (n fuel : ℕ) → n < suc fuel → ltb n 10 ≡ false → n / 10 < fuel
    smaller n fuel h e = ground arith

-- str of a number is not empty.
digits-nonempty : (fuel n c : ℕ) (ds : Text) → text_ltb [] (decimal_digits fuel n (c ∷ ds)) ≡ true
unfolding decimal_digits text_ltb
digits-nonempty zero n c ds = refl
digits-nonempty (suc fuel) n c ds = elim (Bool-cases (ltb n 10)) [
  | inl e ↦ rw e refl
  | inr e ↦ rw e (digits-nonempty fuel (n / 10) (48 + n % 10) (c ∷ ds))
]

number-nonempty : (n : ℕ) → text_ltb [] (part_text (number n)) ≡ true
unfolding part_text decimal_digits text_ltb
number-nonempty n = elim (Bool-cases (ltb n 10)) [
  | inl e ↦ rw e refl
  | inr e ↦ rw e (digits-nonempty n (n / 10) (48 + n % 10) [])
]

number_last : (n : ℕ) (rest : ℤ) → compare_part (word []) (number n) rest ≡ negsuc 0
unfolding compare_part
number_last n rest = less_texts [] _ rest (number-nonempty n)

number_first : (n : ℕ) (rest : ℤ) → compare_part (number n) (word []) rest ≡ pos 1
unfolding compare_part compare_texts text_ltb
number_first n rest = elim (Bool-cases (same (part_text (number n)) [])) [
  | inl e ↦ absurd (cc (subst (λ w. text_ltb [] w ≡ true) (same→eq _ _ e) (number-nonempty n)))
  | inr e ↦ rw e refl
]

numbers_trans :
    (l m n : ℕ) (x y z : ℤ)
    → (x ≡ negsuc 0 → y ≡ negsuc 0 → z ≡ negsuc 0)
    → compare_part (number l) (number m) x ≡ negsuc 0
    → compare_part (number m) (number n) y ≡ negsuc 0
    → compare_part (number l) (number n) z ≡ negsuc 0
unfolding compare_part
numbers_trans l m n x y z f h k = ground (arith, f)

words_trans :
    (s t v : Text) (x y z : ℤ)
    → (x ≡ negsuc 0 → y ≡ negsuc 0 → z ≡ negsuc 0)
    → compare_part (word s) (word t) x ≡ negsuc 0
    → compare_part (word t) (word v) y ≡ negsuc 0
    → compare_part (word s) (word v) z ≡ negsuc 0
unfolding compare_part
words_trans = texts_trans

pub compare_parts_trans :
    (b : Bool) (ps qs rs : List Part)
    → alternates b ps ≡ true
    → alternates b qs ≡ true
    → alternates b rs ≡ true
    → compare_parts ps qs ≡ negsuc 0
    → compare_parts qs rs ≡ negsuc 0
    → compare_parts ps rs ≡ negsuc 0
unfolding compare_parts alternates
compare_parts_trans true (word s ∷ ps) (word t ∷ qs) (word v ∷ rs) a b c h k =
    words_trans s t v _ _ _ (compare_parts_trans false ps qs rs a b c) h k
compare_parts_trans false [] [] rs a b c h k = absurd (cc h)
compare_parts_trans false [] (number m ∷ qs) [] a b c h k =
    absurd (cc (k, number_first m (compare_parts qs [])))
compare_parts_trans false [] (number m ∷ qs) (number n ∷ rs) a b c h k = number_last n _
compare_parts_trans false (number l ∷ ps) [] rs a b c h k =
    absurd (cc (h, number_first l (compare_parts ps [])))
compare_parts_trans false (number l ∷ ps) (number m ∷ qs) [] a b c h k =
    absurd (cc (k, number_first m (compare_parts qs [])))
compare_parts_trans false (number l ∷ ps) (number m ∷ qs) (number n ∷ rs) a b c h k =
    numbers_trans l m n _ _ _ (compare_parts_trans true ps qs rs a b c) h k
compare_parts_trans b ps qs rs a b' c h k = cc
