-- ===== src/Paths/Natural.antt =====
-- The collation GALLERY_NATURAL: _natural_sort_parts and _compare_natural_sql of
-- backend/metadata_store/path_utils.py.
use gallery.Base.{
  ℕ, zero, suc, ◌+◌, ◌*◌, Bool, true, false, ◌&&◌, ◌||◌, Option, none, some, List, [], ◌∷◌, ◌/◌,
  ◌%◌, ltb, leb, ◌==◌, if◌then◌else◌, length,
}
use gallery.Base.Text.{Text, same}
use gallery.Base.Int.{ℤ, pos, negsuc}

-- Python's tables: \d, the characters besides those that str.isdigit takes, the digit of a character
-- of \d, and str.lower.
pub record CharTables : Type 0 where
  pub decimal : ℕ → Bool
  pub other_digit : ℕ → Bool
  pub digit_value : ℕ → ℕ
  pub lower : Text → Text

pub data Part : Type 0 where
  number : ℕ → Part
  word : Text → Part

-- `left < right` of two texts, by code points.
unfoldable pub text_ltb : Text → Text → Bool
text_ltb s [] = false
text_ltb [] (d ∷ t) = true
text_ltb (c ∷ s) (d ∷ t) = if c == d then text_ltb s t else ltb c d

-- str of a number, from its last digit on.
unfoldable pub decimal_digits : ℕ → ℕ → Text → Text
decimal_digits zero n ds = ds
decimal_digits (suc fuel) n ds =
    let rest = decimal_digits fuel (n / 10) ((48 + n % 10) ∷ ds) in
    if ltb n 10 then (48 + n % 10) ∷ ds else rest

-- str(part), with more fuel for the digits of a number than it has digits.
unfoldable pub part_text : Part → Text
part_text (number n) = decimal_digits (suc n) n []
part_text (word s) = s

-- One round of the loop, given what the rounds after it return.
unfoldable pub compare_texts : Text → Text → ℤ → ℤ
compare_texts s t rest = if same s t then rest else if text_ltb s t then negsuc 0 else pos 1

unfoldable pub compare_part : Part → Part → ℤ → ℤ
compare_part (number m) (number n) rest =
    if m == n then rest else if ltb m n then negsuc 0 else pos 1
compare_part (number m) (word t) rest = compare_texts (part_text (number m)) t rest
compare_part (word s) (number n) rest = compare_texts s (part_text (number n)) rest
compare_part (word s) (word t) rest = compare_texts s t rest

-- The loop over both lists, the shorter of which is filled up by empty texts.
unfoldable pub compare_parts : List Part → List Part → ℤ
compare_parts [] [] = pos 0
compare_parts [] (q ∷ qs) = compare_part (word []) q (compare_parts [] qs)
compare_parts (p ∷ ps) [] = compare_part p (word []) (compare_parts ps [])
compare_parts (p ∷ ps) (q ∷ qs) = compare_part p q (compare_parts ps qs)

module _ (u : CharTables) where
  -- re.split(r"(\d+)", value), which begins and ends with a text that has no digit.
  unfoldable pub split_digits : Text → List Text
  split_digits [] = [] ∷ []
  split_digits (c ∷ s) = elim (split_digits s) [
    | [] ↦ (c ∷ []) ∷ []
    | [] ∷ [] ↦ if u.decimal c then [] ∷ (c ∷ []) ∷ [] ∷ [] else (c ∷ []) ∷ []
    | [] ∷ d ∷ more ↦ if u.decimal c then [] ∷ (c ∷ d) ∷ more else (c ∷ []) ∷ d ∷ more
    | (x ∷ w) ∷ more ↦ if u.decimal c then [] ∷ (c ∷ []) ∷ (x ∷ w) ∷ more else (c ∷ x ∷ w) ∷ more
  ]

  unfoldable pub all_digits : Text → Bool
  all_digits [] = true
  all_digits (c ∷ s) = (u.decimal c || u.other_digit c) && all_digits s

  -- str.isdigit.
  unfoldable pub isdigit : Text → Bool
  isdigit [] = false
  isdigit (c ∷ s) = all_digits (c ∷ s)

  unfoldable pub all_decimal : Text → Bool
  all_decimal [] = true
  all_decimal (c ∷ s) = u.decimal c && all_decimal s

  unfoldable pub digits_value : ℕ → Text → ℕ
  digits_value n [] = n
  digits_value n (c ∷ s) = digits_value (n * 10 + u.digit_value c) s

  -- int(part) of a part that isdigit takes, which raises ValueError for a digit outside \d and for more
  -- than 4300 digits.
  unfoldable pub int_of : Text → Option ℕ
  int_of s = if all_decimal s && leb (length s) 4300 then some (digits_value 0 s) else none

  unfoldable pub natural_part : Text → Option Part
  natural_part s =
      if isdigit s
      then elim (int_of s) [ none ↦ none | some n ↦ some (number n) ]
      else some (word (u.lower s))

  -- The loop of _natural_sort_parts, none when it raises.
  unfoldable pub parts_of : List Text → Option (List Part)
  parts_of [] = some []
  parts_of (s ∷ ss) = elim (natural_part s) [
    | none ↦ none
    | some p ↦ elim (parts_of ss) [ none ↦ none | some ps ↦ some (p ∷ ps) ]
  ]

  unfoldable pub natural_sort_parts : Text → Option (List Part)
  natural_sort_parts s = parts_of (split_digits s)

  abbrev pub or_empty : Option Text → Text
  or_empty none = []
  or_empty (some s) = s

  -- _compare_natural_sql, none when it raises.
  unfoldable pub compare_natural : Option Text → Option Text → Option ℤ
  compare_natural left right = elim (natural_sort_parts (or_empty left)) [
    | none ↦ none
    | some ps ↦ elim (natural_sort_parts (or_empty right)) [
      | none ↦ none
      | some qs ↦ some (compare_parts ps qs)
    ]
  ]
