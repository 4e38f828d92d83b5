-- ===== src/Search/Like.antt =====
-- What a value means between the wildcards of a LIKE pattern.
use gallery.Base.{
  ℕ, ◌≡◌, refl, sym, ap, ◌∙◌, ◌≢◌, ◌↔◌, inl, inr, Bool, true, false, ◌&&◌, ◌||◌, [], ◌∷◌, ◌++◌,
  arith, ◌==◌, if◌then◌else◌, Bool-cases,
}
use gallery.Base.Text.{Text, codes}
use mathlib.Core.List.{append-nil, append_assoc}
use gallery.Search.Reader.{backslash}
use gallery.Search.Values.{replace_char, escape_like_literal}

-- SQLite's `text LIKE pattern ESCAPE '\'`, as documented: a percent sign stands for any text, a
-- backslash for the character after it, and any other character but _ for itself, up to `alike`, which
-- ignores the case of ASCII letters.
pub record LikeOperator : Type 0 where
  pub like : Text → Text → Bool
  pub alike : ℕ → ℕ → Bool
  pub itself : (c : ℕ) → alike c c ≡ true
  pub at_end : like [] [] ≡ true
  pub past_end : (c : ℕ) (s : Text) → like [] (c ∷ s) ≡ false
  pub any :
      (p s : Text)
      → (like (b'%' ∷ p) s ≡ true) ↔ ((a : Text) × (b : Text) × (s ≡ a ++ b) × (like p b ≡ true))
  pub escaped_end : (c : ℕ) (p : Text) → like (backslash ∷ c ∷ p) [] ≡ false
  pub escaped : (c d : ℕ) (p s : Text) → like (backslash ∷ c ∷ p) (d ∷ s) ≡ (alike c d && like p s)
  pub plain_end : (c : ℕ) (p : Text) → c ≢ b'%' → like (c ∷ p) [] ≡ false
  pub plain :
      (c d : ℕ) (p s : Text)
      → c ≢ backslash
      → c ≢ b'%'
      → c ≢ b'_'
      → like (c ∷ p) (d ∷ s) ≡ (alike c d && like p s)

replace_char-append :
    (c : ℕ) (t a b : Text) → replace_char c t (a ++ b) ≡ replace_char c t a ++ replace_char c t b
unfolding replace_char
replace_char-append c t [] b = refl
replace_char-append c t (d ∷ a) b =
    ap (λ (x : Text). (if d == c then t else d ∷ []) ++ x) (replace_char-append c t a b)
    ∙ sym (append_assoc (if d == c then t else d ∷ []) (replace_char c t a) (replace_char c t b))

-- A backslash before each of the three characters with a meaning.
abbrev special : ℕ → Bool
special c = c == backslash || c == b'%' || c == b'_'

escape_char : ℕ → Text
escape_char c = if special c then backslash ∷ c ∷ [] else c ∷ []

replace_char-cons :
    (c : ℕ) (t : Text) (d : ℕ) (s : Text)
    → replace_char c t (d ∷ s) ≡ (if d == c then t else d ∷ []) ++ replace_char c t s
unfolding replace_char
replace_char-cons c t d s = refl

escape_first :
    (c : ℕ)
    → replace_char b'_'
        (codes "\\_")
        (replace_char b'%' (codes "\\%") (if c == backslash then codes "\\\\" else c ∷ []))
      ≡ escape_char c
unfolding replace_char escape_char
escape_first c = ground arith

escape_like_literal-cons :
    (c : ℕ) (s : Text) → escape_like_literal (c ∷ s) ≡ escape_char c ++ escape_like_literal s
unfolding escape_like_literal
escape_like_literal-cons c s =
    ap (λ (x : Text). replace_char b'_' (codes "\\_") (replace_char b'%' (codes "\\%") x))
      (replace_char-cons backslash (codes "\\\\") c s)
    ∙ ap (λ (x : Text). replace_char b'_' (codes "\\_") x)
        (replace_char-append b'%' (codes "\\%") _ (replace_char backslash (codes "\\\\") s))
    ∙ replace_char-append b'_' (codes "\\_") _ _
    ∙ ap (λ (x : Text). x ++ escape_like_literal s) (escape_first c)

escape_like_literal-nil : escape_like_literal [] ≡ []
unfolding escape_like_literal replace_char
escape_like_literal-nil = refl

-- The texts agree character by character.
abbrev pub Alike : (ℕ → ℕ → Bool) → Text → Text → Type 0
Alike alike [] [] = Unit
Alike alike [] (d ∷ t) = ⊥
Alike alike (c ∷ v) [] = ⊥
Alike alike (c ∷ v) (d ∷ t) = (alike c d ≡ true) × Alike alike v t

and_left : (x y : Bool) → (x && y) ≡ true → x ≡ true
and_left x y h = ground arith

and_right : (x y : Bool) → (x && y) ≡ true → y ≡ true
and_right x y h = ground arith

module _ (l : LikeOperator) where
  -- A text that begins like `v` and goes on as `p` wants.
  abbrev Begins : Text → Text → Text → Type 0
  Begins v p s = (t : Text) × (b : Text) × (s ≡ t ++ b) × Alike l.alike v t × (l.like p b ≡ true)

  like_char :
      (c : ℕ) (p : Text)
      → (d : ℕ) (s : Text) → l.like (escape_char c ++ p) (d ∷ s) ≡ (l.alike c d && l.like p s)
  unfolding escape_char
  like_char c p d s = elim (Bool-cases (special c)) [
    | inl e ↦ rw e (l.escaped c d p s)
    | inr e ↦ rw e (l.plain c d p s (ground arith) (ground arith) (ground arith))
  ]

  like_char_end : (c : ℕ) (p : Text) → l.like (escape_char c ++ p) [] ≡ false
  unfolding escape_char
  like_char_end c p = elim (Bool-cases (special c)) [
    | inl e ↦ rw e (l.escaped_end c p)
    | inr e ↦ rw e (l.plain_end c p (ground arith))
  ]

  -- One character of the value, at a text that may be empty.
  like_cons :
      (c : ℕ) (v p s : Text)
      → l.like (escape_like_literal (c ∷ v) ++ p) s
        ≡ l.like (escape_char c ++ (escape_like_literal v ++ p)) s
  like_cons c v p s =
      ap (λ (x : Text). l.like x s)
        (ap (λ (x : Text). x ++ p) (escape_like_literal-cons c v)
          ∙ append_assoc (escape_char c) (escape_like_literal v) p)

  like→Begins : (v p s : Text) → l.like (escape_like_literal v ++ p) s ≡ true → Begins v p s
  like→Begins [] p s h = ([], s, refl, tt, rw escape_like_literal-nil at h)
  like→Begins (c ∷ v) p [] h =
      absurd (cc (h, like_cons c v p [], like_char_end c (escape_like_literal v ++ p)))
  like→Begins (c ∷ v) p (d ∷ s) h =
      let both : (l.alike c d && l.like (escape_like_literal v ++ p) s) ≡ true =
        sym (like_cons c v p (d ∷ s) ∙ like_char c (escape_like_literal v ++ p) d s) ∙ h in
      let rest = like→Begins v p s (and_right _ _ both) in
      (d ∷ rest.0, rest.1, ap (λ (x : Text). d ∷ x) rest.2, (and_left _ _ both, rest.3), rest.4)

  Begins→like :
      (v p t b : Text)
      → Alike l.alike v t
      → l.like p b ≡ true
      → l.like (escape_like_literal v ++ p) (t ++ b) ≡ true
  Begins→like [] p [] b a h = rw escape_like_literal-nil h
  Begins→like [] p (d ∷ t) b a h = elim a [ ]
  Begins→like (c ∷ v) p [] b a h = elim a [ ]
  Begins→like (c ∷ v) p (d ∷ t) b a h =
      like_cons c v p (d ∷ (t ++ b))
      ∙ like_char c (escape_like_literal v ++ p) d (t ++ b)
      ∙ rw (a.0, Begins→like v p t b a.1 h) refl

  like_any : (s : Text) → l.like (b'%' ∷ []) s ≡ true
  like_any s = (l.any [] s).1 (s, [], sym (append-nil s), l.at_end)

  Alike-refl : (v : Text) → Alike l.alike v v
  Alike-refl [] = tt
  Alike-refl (c ∷ v) = (l.itself c, Alike-refl v)

  -- A text that begins with the value matches the value, escaped, before a percent sign.
  pub like_prefix : (v r : Text) → l.like (escape_like_literal v ++ b'%' ∷ []) (v ++ r) ≡ true
  like_prefix v r = Begins→like v (b'%' ∷ []) v r (Alike-refl v) (like_any r)

  -- Between two percent signs the escaped value matches the texts that contain the value, up to the
  -- case that LIKE ignores: no character of it is a wildcard.
  pub like_escaped_iff :
      (v s : Text)
      → (l.like (b'%' ∷ (escape_like_literal v ++ b'%' ∷ [])) s ≡ true)
        ↔ ((a : Text) × (t : Text) × (b : Text) × (s ≡ a ++ (t ++ b)) × Alike l.alike v t)
  like_escaped_iff v s = (there, back)
    where
      there :
          l.like (b'%' ∷ (escape_like_literal v ++ b'%' ∷ [])) s ≡ true
          → (a : Text) × (t : Text) × (b : Text) × (s ≡ a ++ (t ++ b)) × Alike l.alike v t
      there h =
          let split = (l.any (escape_like_literal v ++ b'%' ∷ []) s).0 h in
          let found = like→Begins v (b'%' ∷ []) split.1 split.3 in
          (split.0, found.0, found.1, split.2 ∙ ap (λ (x : Text). split.0 ++ x) found.2, found.3)

      back :
          ((a : Text) × (t : Text) × (b : Text) × (s ≡ a ++ (t ++ b)) × Alike l.alike v t)
          → l.like (b'%' ∷ (escape_like_literal v ++ b'%' ∷ [])) s ≡ true
      back (a, t, b, e, k) =
          (l.any (escape_like_literal v ++ b'%' ∷ []) s).1
            (a, t ++ b, e, Begins→like v (b'%' ∷ []) t b k (like_any b))
