-- ===== src/Search/Values.antt =====
-- The values of a token: LIKE patterns, OR groups and numbers.
use gallery.Base.{
  ℕ, zero, suc, ◌+◌, ◌-◌, ◌*◌, Bool, true, false, not, ◌&&◌, ◌||◌, Option, none, some, List, [],
  ◌∷◌, ◌++◌, ltb, leb, ◌==◌, if◌then◌else◌,
}
use gallery.Base.Text.{Text, codes, same}
use gallery.Base.Int.{ℤ, pos, negsuc}
use gallery.Search.Chars.{Unicode, is_digit, strip, has_char}
use gallery.Search.Reader.{backslash, is_quote}
use gallery.Search.Parse.{FieldToken, Operator, eq}

-- str.replace of one character by a text.
unfoldable pub replace_char : ℕ → Text → Text → Text
replace_char c t [] = []
replace_char c t (d ∷ s) = (if d == c then t else d ∷ []) ++ replace_char c t s

unfoldable pub escape_like_literal : Text → Text
escape_like_literal s =
    replace_char b'_' (codes "\\_")
      (replace_char b'%' (codes "\\%") (replace_char backslash (codes "\\\\") s))

-- raw_value.endswith("*") and not raw_value.endswith("\\*"), as the text before the star.
unfoldable pub before_last_star : Text → Option Text
before_last_star [] = none
before_last_star (c ∷ []) = if c == b'*' then some [] else none
before_last_star (c ∷ d ∷ []) = if d == b'*' && not (c == backslash) then some (c ∷ []) else none
before_last_star (c ∷ d ∷ e ∷ s) = elim (before_last_star (d ∷ e ∷ s)) [
  | none ↦ none
  | some t ↦ some (c ∷ t)
]

unfoldable pub like_value : Text → Text
like_value raw = elim (before_last_star raw) [
  | some base ↦ escape_like_literal base ++ b'%' ∷ []
  | none ↦
      if has_char b'*' raw
      then replace_char b'*' (b'%' ∷ []) (escape_like_literal raw)
      else escape_like_literal raw
]

unfoldable pub one_of : List Text → Text → Bool
one_of [] s = false
one_of (t ∷ ts) s = same t s || one_of ts s

abbrev pub or_value_fields : List Text
or_value_fields = codes "model" ∷ codes "sampler" ∷ codes "seed" ∷ codes "path" ∷ []

abbrev pub integer_fields : List Text
integer_fields =
    codes "steps"
    ∷ codes "width"
    ∷ codes "height"
    ∷ codes "clip_skip"
    ∷ codes "hires_steps"
    ∷ codes "ensd"
    ∷ []

abbrev pub real_fields : List Text
real_fields =
    codes "cfg_scale"
    ∷ codes "hires_upscale"
    ∷ codes "denoising_strength"
    ∷ codes "aesthetic_score"
    ∷ []

-- The variables of the loop of _split_unquoted.
pub record Split : Type 0 where
  pub current : Text
  pub quote : Option ℕ
  pub escaped : Bool

unfoldable pub ends_quote : Option ℕ → ℕ → Option ℕ
ends_quote none c = if is_quote c then some c else none
ends_quote (some q) c = if c == q then none else some q

abbrev pub is_open : Option ℕ → Bool
is_open none = false
is_open (some q) = true

-- One character of the loop: whether a part ends before it, and the variables after it.
unfoldable pub split_step : ℕ → Split → ℕ → Bool × Split
split_step delimiter st c =
    let kept : Split = record st { current = st.current ++ c ∷ [] } in
    if st.escaped
    then (false, record kept { escaped = false })
    else if c == backslash
    then (false, record kept { escaped = true })
    else if is_open st.quote || is_quote c
    then (false, record kept { quote = ends_quote st.quote c })
    else if c == delimiter
    then (true, record st { current = [] })
    else (false, kept)

abbrev pub no_option : Operator → Bool
no_option eq = true
no_option _ = false

module _ (u : Unicode) where
  unfoldable pub part_of : Text → List Text
  part_of s = elim (strip u s) [ [] ↦ [] | c ∷ t ↦ (c ∷ t) ∷ [] ]

  unfoldable pub split_loop : ℕ → Split → Text → List Text
  split_loop delimiter st [] = part_of st.current
  split_loop delimiter st (c ∷ s) =
      let next = split_step delimiter st c in
      (if next.0 then part_of st.current else []) ++ split_loop delimiter next.1 s

  unfoldable pub split_unquoted : Text → ℕ → List Text
  split_unquoted s delimiter =
      split_loop delimiter (record { current = []; quote = none; escaped = false }) s

  unfoldable pub or_values : FieldToken → List Text
  or_values ft =
      if one_of or_value_fields ft.field
        && no_option ft.operator
        && not (is_open ft.quote_char)
        && has_char b'|' ft.value
      then split_unquoted ft.value b'|'
      else []

-- A value that is bound to a placeholder; a float is its 64-bit pattern.
pub data Value : Type 0 where
  text : Text → Value
  int : ℤ → Value
  real : ℕ → Value

-- What Python does that is not written out: the value of a decimal digit from 128 on, float() with its
-- tests, json.dumps, and a name under NFKC, with its blanks collapsed, case-folded.
pub record Python : Type 0 where
  pub digit_value : ℕ → ℕ
  pub to_float : Text → Option ℕ
  pub is_finite : ℕ → Bool
  pub integer_of : ℕ → Option ℤ
  pub dumps : Text → Text
  pub normalized_name : Text → Text

unfoldable pub in_range : ℤ → Bool
in_range (pos n) = leb n 9223372036854775807
in_range (negsuc n) = leb n 9223372036854775807

module _ (u : Unicode) (py : Python) where
  abbrev value_of : ℕ → ℕ
  value_of c = if ltb c 128 then c - 48 else py.digit_value c

  -- The digits of int(), with single underscores between them: how many, and their value.
  unfoldable pub read_digits : Bool → ℕ → ℕ → Text → Option (ℕ × ℕ)
  read_digits last n acc [] = if last then some (n, acc) else none
  read_digits last n acc (c ∷ s) =
      let more =
        read_digits (is_digit u c) (if is_digit u c then n + 1 else n)
          (if is_digit u c then acc * 10 + value_of c else acc) s in
      if is_digit u c || (c == b'_' && last) then more else none

  -- More than 4300 digits are refused.
  unfoldable pub magnitude : Text → Option ℕ
  magnitude s = elim (read_digits false 0 0 s) [
    | none ↦ none
    | some (n, v) ↦ if leb n 4300 then some v else none
  ]

  abbrev negative : ℕ → ℤ
  negative zero = pos 0
  negative (suc n) = negsuc n

  abbrev signed : (ℕ → ℤ) → Option ℕ → Option ℤ
  signed f none = none
  signed f (some n) = some (f n)

  unfoldable pub to_int_stripped : Text → Option ℤ
  to_int_stripped [] = none
  to_int_stripped (c ∷ s) =
      if c == b'-'
      then signed negative (magnitude s)
      else if c == b'+'
      then signed pos (magnitude s)
      else signed pos (magnitude (c ∷ s))

  unfoldable pub to_int : Text → Option ℤ
  to_int s = to_int_stripped (strip u s)

  unfoldable pub numeric_value : Text → Option Value
  numeric_value s = elim (to_int s) [
    | some i ↦ if in_range i then some (int i) else none
    | none ↦ elim (py.to_float s) [
      | some x ↦ if py.is_finite x then some (real x) else none
      | none ↦ none
    ]
  ]

  -- An integer field takes a float that is an integer in range, as that integer.
  unfoldable pub as_integer : Value → Option Value
  as_integer (real x) = elim (py.integer_of x) [
    | some i ↦ if in_range i then some (int i) else none
    | none ↦ none
  ]
  as_integer (int i) = some (int i)
  as_integer (text t) = some (text t)

  unfoldable pub numeric_field_value : Text → Text → Option Value
  numeric_field_value f s = elim (numeric_value s) [
    | none ↦ none
    | some v ↦ if one_of integer_fields f then as_integer v else some v
  ]
