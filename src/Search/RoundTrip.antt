-- ===== src/Search/RoundTrip.antt =====
-- A query that is printed as quoted fields is read back.
use gallery.Base.{
  ℕ, zero, suc, ◌≤◌, ◌<◌, ◌≡◌, refl, ap, ◌∙◌, inl, inr, true, false, ◌||◌, none, some, List, [],
  ◌∷◌, ◌++◌, arith, ◌==◌, if◌then◌else◌, Bool-cases, length, All, Has, length-append,
}
use gallery.Base.Text.{Text, codes, same}
use gallery.Search.Chars.{Unicode, is_space, lstrip, rstrip, strip}
use gallery.Search.Pattern.{normalize_field_name, FieldMatch, search_field}
use gallery.Search.Reader.{backslash, read_quoted, skip_blanks, read_at, read_field_value}
use gallery.Search.Parse.{
  FieldToken, eq, comparison, plain_token, token_of, read_token, parse_loop, parse_fielded_query,
}
use gallery.Search.Names.{quotable_names, quotable-Readable}

-- A backslash before each double quote and each backslash.
unfoldable pub escape_quoted : Text → Text
escape_quoted [] = []
escape_quoted (c ∷ s) =
    if c == b'"' || c == backslash then backslash ∷ c ∷ escape_quoted s else c ∷ escape_quoted s

read_quoted-plain :
    (c : ℕ) (w : Text)
    → (c == b'"') ≡ false
    → (c == backslash) ≡ false
    → read_quoted b'"' (c ∷ w) ≡ (c ∷ (read_quoted b'"' w).0, (read_quoted b'"' w).1)
unfolding read_quoted
read_quoted-plain c [] h k = rw h refl
read_quoted-plain c (d ∷ w) h k = rw k (rw h refl)

read_quoted-end : (rest : Text) → read_quoted b'"' (b'"' ∷ rest) ≡ ([], rest)
unfolding read_quoted
read_quoted-end [] = refl
read_quoted-end (d ∷ rest) = refl

read_quoted-escaped :
    (c : ℕ) (w : Text)
    → (c == b'"' || c == backslash) ≡ true
    → read_quoted b'"' (backslash ∷ c ∷ w) ≡ (c ∷ (read_quoted b'"' w).0, (read_quoted b'"' w).1)
unfolding read_quoted
read_quoted-escaped c w h = rw h refl

read_quoted-escape : (v rest : Text) → read_quoted b'"' (escape_quoted v ++ b'"' ∷ rest) ≡ (v, rest)
unfolding escape_quoted
read_quoted-escape [] rest = read_quoted-end rest
read_quoted-escape (c ∷ v) rest = elim (Bool-cases (c == b'"' || c == backslash)) [
  | inl e ↦ rw e (
      read_quoted-escaped c (escape_quoted v ++ b'"' ∷ rest) e
      ∙ rw (read_quoted-escape v rest) refl)
  | inr e ↦ rw e (
      read_quoted-plain c (escape_quoted v ++ b'"' ∷ rest) (ground arith) (ground arith)
      ∙ rw (read_quoted-escape v rest) refl)
]

read_value-escape :
    (u : Unicode) (v rest : Text)
    → read_field_value u (b'"' ∷ (escape_quoted v ++ b'"' ∷ rest))
      ≡ record { value = v; quote = some b'"'; rest = rest }
unfolding read_field_value skip_blanks read_at
read_value-escape u v rest = rw (read_quoted-escape v rest) refl

-- A blank, the name, a colon and the value in double quotes, for each field.
unfoldable pub print_query : List (Text × Text) → Text
print_query [] = []
print_query ((n, v) ∷ r) = b' ' ∷ (n ++ b':' ∷ b'"' ∷ (escape_quoted v ++ b'"' ∷ print_query r))

-- The token of a value in double quotes that does not begin like a comparison.
unfoldable pub quoted_tokens : List (Text × Text) → List FieldToken
quoted_tokens [] = []
quoted_tokens ((n, v) ∷ r) =
    record {
      field = normalize_field_name n;
      value = v;
      operator = eq;
      quote_char = some b'"';
      key = none;
    }
    ∷ quoted_tokens r

abbrev pub Quotable : Text × Text → Type 0
Quotable p = Has p.0 quotable_names × (comparison p.1 ≡ none)

plain_token-quoted :
    (u : Unicode) (f v rest : Text)
    → comparison v ≡ none
    → plain_token u f (record { value = v; quote = some b'"'; rest = rest })
      ≡ record { field = f; value = v; operator = eq; quote_char = some b'"'; key = none }
unfolding plain_token
plain_token-quoted u f v rest h = elim (Bool-cases (same f (codes "raw"))) [
  | inl e ↦ rw e refl
  | inr e ↦ rw e (rw (h, plain_token) refl)
]

module _ (u : Unicode) where
  read_printed :
      (n v rest : Text)
      → Has n quotable_names
      → comparison v ≡ none
      → (m : FieldMatch) × (search_field u
            (b' ' ∷ (n ++ b':' ∷ b'"' ∷ (escape_quoted v ++ b'"' ∷ rest)))
          ≡ some m)
        × (rstrip u m.prefix ≡ [])
        × (read_token u m ≡ (
          record {
            field = normalize_field_name n;
            value = v;
            operator = eq;
            quote_char = some b'"';
            key = none;
          },
          rest,
        ))
  unfolding read_token token_of rstrip is_space
  read_printed n v rest known plain =
      let name = quotable-Readable u n known in
      (
        record { prefix = b' ' ∷ []; name = n; rest = b'"' ∷ (escape_quoted v ++ b'"' ∷ rest) },
        name.found (escape_quoted v ++ b'"' ∷ rest),
        refl,
        rw (name.lowered, name.one_value, read_value-escape u v rest)
            (ap (λ (t : FieldToken). (t, rest))
              (plain_token-quoted u (normalize_field_name n) v rest plain)),
      )

  loop_round_trip :
      (fuel : ℕ) (l : List (Text × Text))
      → length l < fuel
      → All Quotable l
      → parse_loop u fuel (print_query l) ≡ some ([], quoted_tokens l)
  unfolding parse_loop print_query quoted_tokens
  loop_round_trip zero l h q = elim h [ ]
  loop_round_trip (suc fuel) [] h q = refl
  loop_round_trip (suc fuel) ((n, v) ∷ r) h q =
      let step = read_printed n v (print_query r) q.0.0 q.0.1 in
      let token = ap (λ (p : FieldToken × Text). p.0) step.3 in
      let left = ap (λ (p : FieldToken × Text). p.1) step.3 in
      rw (step.1, parse_loop)
        (rw (left, loop_round_trip fuel r (omega arith) q.1, step.2, token) refl)

length-print_query : (l : List (Text × Text)) → length l ≤ length (print_query l)
unfolding print_query
length-print_query [] = omega arith
length-print_query ((n, v) ∷ r) = omega (
  arith,
  length-print_query r,
  length-append n (b':' ∷ b'"' ∷ (escape_quoted v ++ b'"' ∷ print_query r)),
  length-append (escape_quoted v) (b'"' ∷ print_query r),
)

-- A list of fields, each written as a blank, its name, a colon and its value in double quotes, with a
-- backslash before each double quote and each backslash of the value, is read back: one token for each,
-- under its normalized name, with its value, and no residual text. The names are those of the pattern
-- but param and advanced, in lower case, and no value begins with < or >, which a quote does not hide.
pub query_round_trip :
    (u : Unicode) (l : List (Text × Text))
    → All Quotable l
    → parse_fielded_query u (print_query l)
      ≡ some (record { residual_text = []; fields = quoted_tokens l })
unfolding parse_fielded_query strip lstrip rstrip
query_round_trip u l q =
    rw
      (
        loop_round_trip u (suc (length (print_query l))) l (omega (arith, length-print_query l)) q,
        parse_fielded_query,
      )
      refl
