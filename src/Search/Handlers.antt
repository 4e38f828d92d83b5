-- ===== src/Search/Handlers.antt =====
-- The handlers of the fields, each as the condition that it appends or the error that it raises.
use gallery.Base.{
  Bool, true, false, not, ◌&&◌, ◌||◌, Option, none, some, List, [], ◌∷◌, ◌++◌, ◌==◌, if◌then◌else◌,
}
use gallery.Base.Text.{Text}
use gallery.Base.Int.{ℤ}
use gallery.Search.Chars.{Unicode, is_digit, lstrip, has_char}
use gallery.Search.Parse.{FieldToken}
use gallery.Search.Values.{
  Value, text, int, Python, escape_like_literal, like_value, or_values, in_range, to_int,
}
use gallery.Search.Builder.{Fragment, lit, bound, ◌⊕◌, join_each}

-- FieldedSearchValidationError, by its message.
pub data Invalid : Type 0 where
  size_shape size_range : Invalid
  bad_date bad_number : Text → Invalid

pub data Checked : Type 0 where
  accepted : Fragment → Checked
  invalid : Invalid → Checked

abbrev pub or_itself : List Text → Text → List Text
or_itself [] v = v ∷ []
or_itself (x ∷ xs) v = x ∷ xs

abbrev pub around : Text → Value
around s = text (b'%' ∷ (s ++ b'%' ∷ []))

unfoldable pub handle_raw : FieldToken → Fragment
handle_raw ft =
    lit "m.raw_metadata_text LIKE " ⊕ bound (around (like_value ft.value)) ⊕ lit " ESCAPE '\\'"

abbrev pub key_text : Option Text → Text
key_text none = []
key_text (some k) = k

abbrev pub is_empty : Text → Bool
is_empty [] = true
is_empty (c ∷ s) = false

-- json_extract at the key, quoted as JSON, and a comparison only where there is a value.
unfoldable pub handle_json_field : Python → FieldToken → Fragment
unfolding key_text is_empty
handle_json_field py ft =
    if is_empty (key_text ft.key)
    then lit "m.metadata_json LIKE "
      ⊕ bound (text (b'%' ∷ b'"' ∷ (ft.value ++ b'%' ∷ [])))
      ⊕ lit " ESCAPE '\\\\'"
    else lit "json_valid(m.metadata_json) AND json_extract(m.metadata_json, "
      ⊕ bound (text (b'$' ∷ b'.' ∷ py.dumps (key_text ft.key)))
      ⊕ (if is_empty ft.value then lit ") IS NOT NULL" else lit ") = " ⊕ bound (text ft.value))

unfoldable pub handle_model_or_hash : FieldToken → Fragment
handle_model_or_hash ft =
    let pattern = around (escape_like_literal ft.value) in
    if has_char b'=' ft.value
    then lit "(m.model = "
      ⊕ bound (text ft.value)
      ⊕ lit " OR m.model_hash = "
      ⊕ bound (text ft.value)
      ⊕ lit ")"
    else lit "(m.model LIKE "
      ⊕ bound pattern
      ⊕ lit " ESCAPE '\\' OR m.model_hash LIKE "
      ⊕ bound pattern
      ⊕ lit " ESCAPE '\\')"

unfoldable pub handle_resource_hash : FieldToken → Fragment
handle_resource_hash ft =
    let pattern = around (escape_like_literal ft.value) in
    lit
      "EXISTS (SELECT 1 FROM image_resources ir WHERE ir.path = m.path AND (ir.resource_hash LIKE "
    ⊕ bound pattern
    ⊕ lit " ESCAPE '\\' OR ir.hash LIKE "
    ⊕ bound pattern
    ⊕ lit " ESCAPE '\\'))"

unfoldable pub handle_lora : FieldToken → Fragment
handle_lora ft =
    let pattern = around (escape_like_literal ft.value) in
    lit
      "EXISTS (SELECT 1 FROM image_resources ir WHERE ir.path = m.path AND ir.kind = 'lora' AND (ir.name LIKE "
    ⊕ bound pattern
    ⊕ lit " ESCAPE '\\' OR ir.resource_hash LIKE "
    ⊕ bound pattern
    ⊕ lit " ESCAPE '\\' OR ir.hash LIKE "
    ⊕ bound pattern
    ⊕ lit " ESCAPE '\\'))"

abbrev like_path : Text → Fragment
like_path v = lit "m.path LIKE " ⊕ bound (around (like_value v)) ⊕ lit " ESCAPE '\\'"

unfoldable pub handle_path : Unicode → FieldToken → Fragment
unfolding like_path
handle_path u ft =
    lit "(" ⊕ join_each " OR " like_path (or_itself (or_values u ft) ft.value) ⊕ lit ")"

-- The leading digits, and the text after them.
unfoldable pub take_digits : Unicode → Text → Text × Text
take_digits u [] = ([], [])
take_digits u (c ∷ s) =
    let more = take_digits u s in if is_digit u c then (c ∷ more.0, more.1) else ([], c ∷ s)

abbrev after_x : Text → Option Text
after_x [] = none
after_x (c ∷ s) = if c == b'x' || c == b'X' then some s else none

-- re.fullmatch(r"(\d+)\s*x\s*(\d+)") under IGNORECASE: the two groups.
unfoldable pub size_match : Unicode → Text → Option (Text × Text)
unfolding after_x is_empty
size_match u s =
    let width = take_digits u s in
    elim (after_x (lstrip u width.1)) [
      | none ↦ none
      | some t ↦
          let height = take_digits u (lstrip u t) in
          if is_empty width.0 || is_empty height.0 || not (is_empty height.1)
          then none
          else some (width.0, height.0)
    ]

unfoldable pub size_condition : ℤ → ℤ → Checked
size_condition w h =
    if in_range w && in_range h
    then accepted (lit "m.width = " ⊕ bound (int w) ⊕ lit " AND m.height = " ⊕ bound (int h))
    else invalid size_range

-- int() refuses more than 4300 digits.
unfoldable pub size_of : Option ℤ → Option ℤ → Checked
size_of none h = invalid size_range
size_of (some w) none = invalid size_range
size_of (some w) (some h) = size_condition w h

unfoldable pub handle_size : Unicode → Python → FieldToken → Checked
handle_size u py ft = elim (size_match u ft.value) [
  | none ↦ invalid size_shape
  | some (w, h) ↦ size_of (to_int u py w) (to_int u py h)
]
