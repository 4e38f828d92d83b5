-- ===== src/Search/Parse.antt =====
-- parse_fielded_query.
use gallery.Base.{
  ℕ, zero, suc, Bool, ◌||◌, Option, none, some, List, [], ◌∷◌, ◌++◌, ◌==◌, if◌then◌else◌, length,
}
use gallery.Base.Text.{Text, codes, same}
use gallery.Search.Chars.{Unicode, lower, rstrip, strip, lstrip}
use gallery.Search.Pattern.{normalize_field_name, FieldMatch, search_field}
use gallery.Search.Reader.{Read, read_field_value}

pub data Operator : Type 0 where
  eq gt ge lt le : Operator

pub record FieldToken : Type 0 where
  pub field : Text
  pub value : Text
  pub operator : Operator
  pub quote_char : Option ℕ
  pub key : Option Text

pub record ParsedQuery : Type 0 where
  pub residual_text : Text
  pub fields : List FieldToken

-- value.endswith(":"), as the text before that colon.
unfoldable pub before_last_colon : Text → Option Text
before_last_colon [] = none
before_last_colon (c ∷ []) = if c == b':' then some [] else none
before_last_colon (c ∷ d ∷ s) = elim (before_last_colon (d ∷ s)) [
  | none ↦ none
  | some t ↦ some (c ∷ t)
]

-- value.split(":", 1), where there is a colon.
unfoldable pub split_colon : Text → Option (Text × Text)
split_colon [] = none
split_colon (c ∷ s) =
    let more = split_colon s in
    if c == b':' then some ([], s) else elim more [ none ↦ none | some (a, b) ↦ some (c ∷ a, b) ]

-- COMP_OP_PATTERN: the operator and the text after it.
unfoldable pub after_equals : Operator → Operator → Text → Operator × Text
after_equals strict loose [] = (strict, [])
after_equals strict loose (c ∷ s) = if c == b'=' then (loose, s) else (strict, c ∷ s)

unfoldable pub comparison : Text → Option (Operator × Text)
comparison [] = none
comparison (c ∷ s) =
    if c == b'>'
    then some (after_equals gt ge s)
    else if c == b'<'
    then some (after_equals lt le s)
    else none

abbrev pub is_json_field : Text → Bool
is_json_field f = same f (codes "param") || same f (codes "advanced")

abbrev with_key : Text → Text → Text → FieldToken
with_key f k v = record { field = f; value = v; operator = eq; quote_char = none; key = some k }

module _ (u : Unicode) where
  -- A token of param or advanced: the key is quoted before the colon, or stands in the value.
  unfoldable pub json_token : Text → Read → FieldToken × Text
  json_token f r =
      let next = read_field_value u r.rest in
      elim (before_last_colon r.value) [
        | some k ↦ (with_key f k next.value, next.rest)
        | none ↦ elim (split_colon r.value) [
          | some (k, v) ↦ (with_key f k v, r.rest)
          | none ↦ (with_key f r.value [], r.rest)
        ]
      ]

  -- Any other token: the operator in front, except for raw.
  unfoldable pub plain_token : Text → Read → FieldToken
  plain_token f r =
      let whole : FieldToken = record {
        field = f;
        value = r.value;
        operator = eq;
        quote_char = r.quote;
        key = none;
      } in
      if same f (codes "raw") then whole else elim (comparison r.value) [
        | none ↦ whole
        | some (op, v) ↦ record whole { operator = op; value = strip u (lstrip u v) }
      ]

  unfoldable pub token_of : Text → Read → FieldToken × Text
  token_of f r = if is_json_field f then json_token f r else (plain_token f r, r.rest)

  -- The token of a match, and the text after it.
  unfoldable pub read_token : FieldMatch → FieldToken × Text
  read_token m = token_of (normalize_field_name (lower u m.name)) (read_field_value u m.rest)

  -- The loop, with fuel: the residual parts joined, and the tokens. `none` means no fuel.
  unfoldable pub parse_loop : ℕ → Text → Option (Text × List FieldToken)
  parse_loop zero s = none
  parse_loop (suc fuel) [] = some ([], [])
  parse_loop (suc fuel) (c ∷ s) = elim (search_field u (c ∷ s)) [
    | none ↦ some (c ∷ s, [])
    | some m ↦ elim (parse_loop fuel (read_token m).1) [
      | none ↦ none
      | some (residual, fields) ↦ some (rstrip u m.prefix ++ residual, (read_token m).0 ∷ fields)
    ]
  ]

  unfoldable pub parse_fielded_query : Text → Option ParsedQuery
  parse_fielded_query raw = elim (parse_loop (suc (length raw)) raw) [
    | none ↦ none
    | some (residual, fields) ↦ some (record { residual_text = strip u residual; fields = fields })
  ]
