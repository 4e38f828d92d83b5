-- ===== src/Search/Chars.antt =====
-- The character classes and the str methods that backend/fielded_search_parser.py uses. ASCII is written
-- out; the tables of the other code points are Python's and given from outside.
use gallery.Base.{ℕ, ◌+◌, Bool, false, ◌&&◌, ◌||◌, [], ◌∷◌, ltb, leb, ◌==◌, if◌then◌else◌}
use gallery.Base.Text.{Text}

-- For code points from 128 on: str.isspace and \s, \w, \d, the letter of the pattern that a character
-- matches under IGNORECASE, and str.lower.
pub record Unicode : Type 0 where
  pub space : ℕ → Bool
  pub word : ℕ → Bool
  pub digit : ℕ → Bool
  pub fold : ℕ → ℕ
  pub lower : ℕ → ℕ

abbrev between : ℕ → ℕ → ℕ → Bool
between lo hi c = leb lo c && leb c hi

abbrev is_upper : ℕ → Bool
is_upper c = between 65 90 c

module _ (u : Unicode) where
  unfoldable pub is_space : ℕ → Bool
  is_space c = if ltb c 128 then between 9 13 c || between 28 32 c else u.space c

  unfoldable pub is_word : ℕ → Bool
  is_word c =
      if ltb c 128 then between 48 57 c || is_upper c || c == 95 || between 97 122 c else u.word c

  unfoldable pub is_digit : ℕ → Bool
  is_digit c = if ltb c 128 then between 48 57 c else u.digit c

  unfoldable pub fold : ℕ → ℕ
  fold c = if ltb c 128 then (if is_upper c then c + 32 else c) else u.fold c

  unfoldable pub lower : Text → Text
  lower [] = []
  lower (c ∷ s) = (if ltb c 128 then (if is_upper c then c + 32 else c) else u.lower c) ∷ lower s

  -- str.lstrip, which is also what \s* passes over.
  unfoldable pub lstrip : Text → Text
  lstrip [] = []
  lstrip (c ∷ s) = if is_space c then lstrip s else c ∷ s

  unfoldable pub rstrip : Text → Text
  rstrip [] = []
  rstrip (c ∷ s) = elim (rstrip s) [ [] ↦ if is_space c then [] else c ∷ [] | d ∷ t ↦ c ∷ d ∷ t ]

  unfoldable pub strip : Text → Text
  strip s = lstrip (rstrip s)

-- `c in s`.
unfoldable pub has_char : ℕ → Text → Bool
has_char c [] = false
has_char c (d ∷ s) = d == c || has_char c s
