-- ===== src/Search/LikeScenarios.antt =====
-- A LIKE operator that meets the documented rules, and the escaped patterns under it.
use gallery.Base.{
  ℕ, ◌+◌, ◌≡◌, refl, sym, ap, ◌∙◌, ◌≢◌, ◌↔◌, inl, inr, Bool, true, false, ◌&&◌, ◌||◌, [], ◌∷◌, ◌++◌,
  arith, leb, ◌==◌, if◌then◌else◌, Bool-cases,
}
use gallery.Base.Text.{Text, codes}
use gallery.Search.Reader.{backslash}
use gallery.Search.Values.{escape_like_literal}
use gallery.Search.Like.{LikeOperator, Alike, like_escaped_iff}

alike : ℕ → ℕ → Bool
alike c d =
    c == d || (leb 97 c && leb c 122 && c == d + 32) || (leb 97 d && leb d 122 && d == c + 32)

head : ℕ → (Text → Bool) → Text → Bool
head c k [] = false
head c k (d ∷ s) = alike c d && k s

one : (Text → Bool) → Text → Bool
one k [] = false
one k (d ∷ s) = k s

any_suffix : (Text → Bool) → Text → Bool
any_suffix k [] = k []
any_suffix k (d ∷ s) = k (d ∷ s) || any_suffix k s

like : Text → Text → Bool
like [] [] = true
like [] (d ∷ s) = false
like (c ∷ []) s =
    let rest = like [] in
    if c == b'%'
    then any_suffix rest s
    else if c == backslash
    then false
    else if c == b'_'
    then one rest s
    else head c rest s
like (c ∷ e ∷ p) s =
    let rest = like (e ∷ p) in
    let quoted = like p in
    if c == b'%'
    then any_suffix rest s
    else if c == backslash
    then head e quoted s
    else if c == b'_'
    then one rest s
    else head c rest s

Splits : (Text → Bool) → Text → Type 0
Splits k s = (a : Text) × (b : Text) × (s ≡ a ++ b) × (k b ≡ true)

any_suffix→Splits : (k : Text → Bool) (s : Text) → any_suffix k s ≡ true → Splits k s
unfolding any_suffix Splits
any_suffix→Splits k [] h = ([], [], refl, h)
any_suffix→Splits k (d ∷ s) h = elim (Bool-cases (k (d ∷ s))) [
  | inl e ↦ ([], d ∷ s, refl, e)
  | inr e ↦
      let rest = any_suffix→Splits k s (ground (arith, h, e)) in
      (d ∷ rest.0, rest.1, ap (λ (x : Text). d ∷ x) rest.2, rest.3)
]

any_suffix-append : (k : Text → Bool) (a b : Text) → k b ≡ true → any_suffix k (a ++ b) ≡ true
unfolding any_suffix
any_suffix-append k [] [] h = h
any_suffix-append k [] (d ∷ b) h = rw h refl
any_suffix-append k (d ∷ a) b h = ground (arith, any_suffix-append k a b h)

like_percent : (p s : Text) → like (b'%' ∷ p) s ≡ any_suffix (like p) s
unfolding like
like_percent [] s = refl
like_percent (e ∷ p) s = refl

like_any :
    (p s : Text)
    → (like (b'%' ∷ p) s ≡ true) ↔ ((a : Text) × (b : Text) × (s ≡ a ++ b) × (like p b ≡ true))
unfolding Splits
like_any p s = (
  λ h. any_suffix→Splits (like p) s (sym (like_percent p s) ∙ h),
  λ x.
      like_percent p s
      ∙ ap (λ (y : Text). any_suffix (like p) y) x.2
      ∙ any_suffix-append (like p) x.0 x.1 x.3,
)

like_escaped : (c d : ℕ) (p s : Text) → like (backslash ∷ c ∷ p) (d ∷ s) ≡ (alike c d && like p s)
unfolding like head
like_escaped c d p s = refl

like_escaped_end : (c : ℕ) (p : Text) → like (backslash ∷ c ∷ p) [] ≡ false
unfolding like head
like_escaped_end c p = refl

like_plain_end : (c : ℕ) (p : Text) → c ≢ b'%' → like (c ∷ p) [] ≡ false
unfolding like head one
like_plain_end c [] h = ground arith
like_plain_end c (e ∷ p) h = ground arith

like_plain :
    (c d : ℕ) (p s : Text)
    → c ≢ backslash
    → c ≢ b'%'
    → c ≢ b'_'
    → like (c ∷ p) (d ∷ s) ≡ (alike c d && like p s)
unfolding like head
like_plain c d [] s h k m = ground arith
like_plain c d (e ∷ p) s h k m = ground arith

alike_refl : (c : ℕ) → alike c c ≡ true
unfolding alike
alike_refl c = ground arith

pub nocase : LikeOperator
unfolding like
nocase = record {
  like = like;
  alike = alike;
  itself = alike_refl;
  at_end = refl;
  past_end = λ c s. refl;
  any = like_any;
  escaped_end = like_escaped_end;
  escaped = like_escaped;
  plain_end = like_plain_end;
  plain = like_plain;
}

like_escaped_iff_example :
    (nocase.like (b'%' ∷ (escape_like_literal (codes "5_%") ++ b'%' ∷ [])) (codes "a 5_% b") ≡ true)
    ↔ ((a : Text) × (t : Text) × (b : Text) × (codes "a 5_% b" ≡ a ++ (t ++ b))
        × Alike nocase.alike (codes "5_%") t)
like_escaped_iff_example = like_escaped_iff nocase (codes "5_%") (codes "a 5_% b")
