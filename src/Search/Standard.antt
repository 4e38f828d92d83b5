-- ===== src/Search/Standard.antt =====
-- _handle_standard_field and _handle_model.
use Prim.Native.String.{String}
use gallery.Base.{
  Bool, true, false, not, ◌&&◌, ◌||◌, Option, none, some, List, [], ◌∷◌, ◌++◌, ltb, ◌==◌,
  if◌then◌else◌, length,
}
use gallery.Base.Text.{Text, codes, same}
use gallery.Search.Chars.{Unicode, is_digit, strip, has_char}
use gallery.Search.Parse.{FieldToken, Operator, eq, gt, ge, lt, le}
use gallery.Search.Values.{
  Value, text, Python, replace_char, escape_like_literal, like_value, one_of, integer_fields,
  real_fields, or_values, no_option, is_open, part_of, numeric_field_value,
}
use gallery.Search.Builder.{Condition, Piece, sql, next_param, Fragment, lit, bound, ◌⊕◌, join_each}
use gallery.Search.Handlers.{bad_date, bad_number, Checked, accepted, invalid, or_itself, around}

abbrev columns : List (Text × String)
columns =
    (codes "prompt", "prompt")
    ∷ (codes "negative", "negative_prompt")
    ∷ (codes "date", "date")
    ∷ (codes "generation_time", "generation_time")
    ∷ (codes "tool", "tool")
    ∷ (codes "seed", "seed")
    ∷ (codes "steps", "steps")
    ∷ (codes "cfg_scale", "cfg_scale")
    ∷ (codes "sampler", "sampler")
    ∷ (codes "scheduler", "scheduler")
    ∷ (codes "width", "width")
    ∷ (codes "height", "height")
    ∷ (codes "aspect_ratio", "aspect_ratio")
    ∷ (codes "model", "model")
    ∷ (codes "model_hash", "model_hash")
    ∷ (codes "clip_skip", "clip_skip")
    ∷ (codes "hires_upscale", "hires_upscale")
    ∷ (codes "hires_steps", "hires_steps")
    ∷ (codes "denoising_strength", "denoising_strength")
    ∷ (codes "vae", "vae")
    ∷ (codes "ensd", "ensd")
    ∷ (codes "aesthetic_score", "aesthetic_score")
    ∷ (codes "path", "path")
    ∷ (codes "name", "name")
    ∷ []

unfoldable pub find_column : List (Text × String) → Text → String
find_column [] f = "raw_metadata_text"
find_column ((n, c) ∷ r) f = if same n f then c else find_column r f

unfoldable pub column_of : Text → String
unfolding columns
column_of f = find_column columns f

abbrev pub text_like_fields : List Text
text_like_fields =
    codes "prompt"
    ∷ codes "negative"
    ∷ codes "name"
    ∷ codes "tool"
    ∷ codes "sampler"
    ∷ codes "scheduler"
    ∷ codes "model"
    ∷ codes "lora"
    ∷ codes "resource_hash"
    ∷ codes "vae"
    ∷ codes "date"
    ∷ codes "generation_time"
    ∷ []

abbrev pub date_fields : List Text
date_fields = codes "date" ∷ codes "generation_time" ∷ []

abbrev pub trigram_fields : List Text
trigram_fields = codes "prompt" ∷ codes "negative" ∷ codes "name" ∷ codes "sampler" ∷ []

unfoldable pub escape_fts_token : Text → Text
escape_fts_token s = b'"' ∷ (replace_char b'"' (b'"' ∷ b'"' ∷ []) s ++ b'"' ∷ [])

-- The text of an operator in a condition.
unfoldable pub operator_sql : Operator → String
operator_sql eq = "="
operator_sql gt = ">"
operator_sql ge = ">="
operator_sql lt = "<"
operator_sql le = "<="

-- \d{4}-\d{2}-\d{2} over the whole text: a digit for each 0 of the mask.
unfoldable pub fits_mask : Unicode → Text → Text → Bool
fits_mask u [] [] = true
fits_mask u [] (c ∷ s) = false
fits_mask u (m ∷ ms) [] = false
fits_mask u (m ∷ ms) (c ∷ s) = (if m == b'0' then is_digit u c else c == m) && fits_mask u ms s

unfoldable pub is_date : Unicode → Text → Bool
is_date u s = fits_mask u (codes "0000-00-00") s

-- value.split(",") with the blank parts left out and the others stripped.
unfoldable pub split_commas : Unicode → Text → Text → List Text
split_commas u current [] = part_of u current
split_commas u current (c ∷ s) =
    (if c == b',' then part_of u current else [])
    ++ split_commas u (if c == b',' then [] else current ++ c ∷ []) s

-- Several values under quotes, or the OR group, or the value itself.
abbrev pub is_list : FieldToken → Bool
is_list ft = is_open ft.quote_char && has_char b',' ft.value

unfoldable pub values_of : Unicode → FieldToken → List Text
values_of u ft =
    if is_list ft then split_commas u [] ft.value else or_itself (or_values u ft) ft.value

unfoldable pub joiner : FieldToken → String
joiner ft = if is_list ft then " AND " else " OR "

-- A trigram query needs three characters and no wildcard.
unfoldable pub trigram_rowids : Unicode → String → Text → Option Fragment
trigram_rowids u column v =
    if ltb (length (strip u v)) 3 || has_char b'*' v
    then none
    else some (
        lit "SELECT rowid FROM image_metadata_fts_trigram WHERE image_metadata_fts_trigram MATCH "
        ⊕ bound
            (text (codes column ++ codes " : (" ++ (escape_fts_token (strip u v) ++ codes ")"))))

-- The first fragment binds first, and the second stands first in the text.
unfoldable pub behind : Fragment → Fragment → Fragment
behind f g b = ((g (f b).1).0 ++ (f b).0, (g (f b).1).1)

unfoldable pub like_column : String → Text → Fragment
like_column col v =
    lit "m." ⊕ lit col ⊕ lit " LIKE " ⊕ bound (around (escape_like_literal v)) ⊕ lit " ESCAPE '\\'"

unfoldable pub like_value_of : Unicode → Text → String → Text → Fragment
unfolding trigram_fields
like_value_of u f col v =
    let like = like_column col v in
    if one_of trigram_fields f
    then (elim (trigram_rowids u col v) [
      | none ↦ like
      | some rowids ↦ behind (like ⊕ lit ")") (lit "(m.id IN (" ⊕ rowids ⊕ lit ") AND ")
    ])
    else like

abbrev pub compare_column : String → String → Operator → Value → String → Fragment
compare_column col start op v close =
    lit "m."
    ⊕ lit col
    ⊕ lit " IS NOT NULL AND "
    ⊕ lit start
    ⊕ lit col
    ⊕ lit close
    ⊕ lit (operator_sql op)
    ⊕ lit " "
    ⊕ bound v

unfoldable pub date_condition : Unicode → FieldToken → Checked
unfolding compare_column
date_condition u ft =
    let v = strip u ft.value in
    if is_date u v
    then accepted (compare_column (column_of ft.field) "substr(m." ft.operator (text v) ", 1, 10) ")
    else invalid (bad_date ft.field)

unfoldable pub number_condition : Unicode → Python → FieldToken → Checked
unfolding compare_column
number_condition u py ft = elim (numeric_field_value u py ft.field ft.value) [
  | none ↦ invalid (bad_number ft.field)
  | some v ↦
      if no_option ft.operator
      then accepted (lit "m." ⊕ lit (column_of ft.field) ⊕ lit " = " ⊕ bound v)
      else accepted (compare_column (column_of ft.field) "m." ft.operator v " ")
]

unfoldable pub text_condition : Unicode → FieldToken → Fragment
text_condition u ft =
    lit "("
    ⊕ join_each (joiner ft) (like_value_of u ft.field (column_of ft.field)) (values_of u ft)
    ⊕ lit ")"

abbrev equals_column : String → Text → Fragment
equals_column col v = lit "m." ⊕ lit col ⊕ lit " = " ⊕ bound (text v)

-- Any other field: LIKE where the value has something to escape or a star, else equality.
unfoldable pub other_condition : Unicode → FieldToken → Fragment
unfolding equals_column
other_condition u ft =
    if not (same (like_value ft.value) ft.value) || has_char b'*' ft.value
    then lit "m."
      ⊕ lit (column_of ft.field)
      ⊕ lit " LIKE "
      ⊕ bound (text (like_value ft.value))
      ⊕ lit " ESCAPE '\\'"
    else lit "("
      ⊕ join_each " OR " (equals_column (column_of ft.field)) (or_itself (or_values u ft) ft.value)
      ⊕ lit ")"

unfoldable pub handle_standard_field : Unicode → Python → FieldToken → Checked
unfolding date_fields text_like_fields
handle_standard_field u py ft =
    if one_of date_fields ft.field && not (no_option ft.operator)
    then date_condition u ft
    else if not (no_option ft.operator)
    then number_condition u py ft
    else if one_of text_like_fields ft.field
    then accepted (text_condition u ft)
    else if one_of integer_fields ft.field || one_of real_fields ft.field
    then number_condition u py ft
    else accepted (other_condition u ft)

abbrev pub direct_model : Text → Fragment
direct_model v = lit "m.model LIKE " ⊕ bound (around (escape_like_literal v)) ⊕ lit " ESCAPE '\\'"

-- The hashes of the assets that were observed under the name.
abbrev pub alias_hashes : Piece → Condition
alias_hashes name =
    sql
      "SELECT DISTINCT identity.normalized_hash FROM asset_model_identity_values AS identity JOIN assets AS identity_asset ON identity_asset.id = identity.asset_id WHERE identity.normalized_name = "
    ∷ name
    ∷ sql
        " AND identity.normalized_hash != '' AND identity_asset.offline = 0 AND identity_asset.deleted_at IS NULL"
    ∷ []

abbrev pub alias_condition : Piece → Condition
alias_condition name =
    sql "lower(coalesce(m.model_hash, '')) != '' AND lower(m.model_hash) IN ("
    ∷ (alias_hashes name ++ sql ")" ∷ [])

-- The rows that the trigram query finds or that have one of the hashes.
abbrev pub by_rowids : Fragment → Condition → Piece → Fragment
by_rowids rowids direct name b = (
  sql "(m.id IN ("
      ∷ ((rowids b).0
          ++ sql
              " UNION SELECT alias_metadata.id FROM image_metadata AS alias_metadata WHERE lower(coalesce(alias_metadata.model_hash, '')) != '' AND lower(alias_metadata.model_hash) IN ("
            ∷ (alias_hashes name
                ++ sql ")) AND ("
                  ∷ (direct ++ sql " OR " ∷ (alias_condition name ++ sql "))" ∷ [])))),
  (rowids b).1,
)

abbrev pub by_name : Condition → Piece → Fragment
by_name direct name b =
    (sql "(" ∷ (direct ++ sql " OR " ∷ (alias_condition name ++ sql ")" ∷ [])), b)

unfoldable pub model_value : Unicode → Python → Text → Fragment
unfolding direct_model alias_hashes alias_condition by_rowids by_name
model_value u py v b =
    let direct = direct_model v b in
    let name = next_param (text (py.normalized_name v)) direct.1 in
    if has_char b'*' v then direct else (elim (trigram_rowids u "model" v) [
      | some rowids ↦ by_rowids rowids direct.0 name.0 name.1
      | none ↦ by_name direct.0 name.0 name.1
    ])

unfoldable pub handle_model : Unicode → Python → FieldToken → Fragment
handle_model u py ft = lit "(" ⊕ join_each (joiner ft) (model_value u py) (values_of u ft) ⊕ lit ")"
