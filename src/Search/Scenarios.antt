-- ===== src/Search/Scenarios.antt =====
-- The theorems on fielded search at concrete queries, and runs of the code there.
use gallery.Base.{◌≤◌, ◌≡◌, refl, inl, inr, true, false, none, some, List, [], ◌∷◌, length, All}
use gallery.Base.Text.{Text, codes, same}
use gallery.Search.Chars.{Unicode}
use gallery.Search.Parse.{FieldToken, ParsedQuery, parse_fielded_query, eq, ge}
use gallery.Search.Values.{Python}
use gallery.Search.Builder.{Builder}
use gallery.Search.Build.{build_fielded_conditions, Outcome, built, raised, new_builder}
use gallery.Search.Total.{parse_fielded_query_total}
use gallery.Search.RoundTrip.{print_query, quoted_tokens, Quotable, query_round_trip}
use gallery.Search.Placeholders.{Fits, build_fielded_conditions-Fits}

-- Only ASCII has letters, digits and blanks.
abbrev ascii : Unicode
ascii = record {
  space = λ c. false;
  word = λ c. false;
  digit = λ c. false;
  fold = λ c. c;
  lower = λ c. c;
}

abbrev python : Python
python = record {
  digit_value = λ c. 0;
  to_float = λ s. none;
  is_finite = λ x. true;
  integer_of = λ x. none;
  dumps = λ s. s;
  normalized_name = λ s. s;
}

parse_fielded_query_total_example :
    (q : ParsedQuery) × (parse_fielded_query ascii (codes "red cat Steps:>=20 folder:a") ≡ some q)
    × (length q.fields ≤ length (codes "red cat Steps:>=20 folder:a"))
parse_fielded_query_total_example =
    parse_fielded_query_total ascii (codes "red cat Steps:>=20 folder:a")

abbrev quoted : List (Text × Text)
quoted = (codes "prompt", codes "a \"b\" c") ∷ (codes "positive", codes "x\\y") ∷ []

quoted-Quotable : All Quotable quoted
unfolding gallery.Search.Parse.comparison
quoted-Quotable = ((inl refl, refl), ((inr (inl refl), refl), tt))

query_round_trip_example :
    parse_fielded_query ascii (print_query quoted)
    ≡ some (record { residual_text = []; fields = quoted_tokens quoted })
query_round_trip_example = query_round_trip ascii quoted quoted-Quotable

token : Text → Text → FieldToken
token f v = record { field = f; value = v; operator = eq; quote_char = none; key = none }

abbrev query : ParsedQuery
query = record {
  residual_text = codes "red cat";
  fields = token (codes "steps") (codes "20") ∷ token (codes "lora") (codes "ink") ∷ [];
}

abbrev builder_of : Outcome → Builder
builder_of (built b) = b
builder_of (raised e) = new_builder

builder : Builder
builder = builder_of (build_fielded_conditions ascii python query)

query_is_built : build_fielded_conditions ascii python query ≡ built builder
unfolding builder build_fielded_conditions same token gallery.Search.Build.handle_each
    gallery.Search.Build.handle_field gallery.Search.Standard.handle_standard_field
    gallery.Search.Values.one_of gallery.Search.Standard.number_condition
    gallery.Search.Values.numeric_field_value gallery.Search.Values.numeric_value
    gallery.Search.Values.to_int gallery.Search.Values.to_int_stripped gallery.Search.Chars.strip
    gallery.Search.Chars.lstrip gallery.Search.Chars.rstrip gallery.Search.Chars.is_space
    gallery.Search.Values.magnitude gallery.Search.Build.join_and
    gallery.Search.Build.residual_condition gallery.Search.Build.unicode_match_query
    gallery.Search.Build.words gallery.Search.Builder.add gallery.Search.Builder.bound
    gallery.Search.Builder.lit gallery.Search.Builder.next_param gallery.Search.Builder.◌⊕◌
    gallery.Search.Chars.is_digit gallery.Search.Chars.is_word gallery.Search.Handlers.handle_lora
    gallery.Search.Standard.column_of gallery.Search.Standard.escape_fts_token
    gallery.Search.Standard.find_column gallery.Search.Values.as_integer
    gallery.Search.Values.escape_like_literal gallery.Search.Values.in_range
    gallery.Search.Values.read_digits gallery.Search.Values.replace_char
query_is_built = refl

build_fielded_conditions-Fits_example : Fits builder
build_fielded_conditions-Fits_example =
    build_fielded_conditions-Fits ascii python query builder query_is_built
