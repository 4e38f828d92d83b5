-- ===== src/Search/Build.antt =====
-- build_fielded_conditions: the residual text and the tokens, one condition each.
use gallery.Base.{◌||◌, List, [], ◌∷◌, ◌++◌, ◌==◌, if◌then◌else◌}
use gallery.Base.Text.{Text, codes, same}
use gallery.Search.Chars.{Unicode, is_word}
use gallery.Search.Parse.{FieldToken, ParsedQuery}
use gallery.Search.Values.{text, Python}
use gallery.Search.Builder.{Builder, Condition, sql, Fragment, lit, bound, ◌⊕◌, add}
use gallery.Search.Handlers.{
  Invalid, Checked, accepted, invalid, is_empty, handle_raw, handle_json_field,
  handle_model_or_hash, handle_resource_hash, handle_lora, handle_path, handle_size,
}
use gallery.Search.Standard.{escape_fts_token, handle_standard_field, handle_model}

abbrev end_word : Text → List Text
end_word [] = []
end_word (c ∷ s) = (c ∷ s) ∷ []

-- re.findall(r"[\w.-]+"): the runs of such characters.
unfoldable pub words : Unicode → Text → Text → List Text
unfolding end_word
words u run [] = end_word run
words u run (c ∷ s) =
    let inside = is_word u c || c == b'.' || c == b'-' in
    (if inside then [] else end_word run) ++ words u (if inside then run ++ c ∷ [] else []) s

unfoldable pub join_and : List Text → Text
join_and [] = []
join_and (t ∷ []) = escape_fts_token t
join_and (t ∷ t' ∷ ts) = escape_fts_token t ++ codes " AND " ++ join_and (t' ∷ ts)

unfoldable pub unicode_match_query : Unicode → Text → Text
unicode_match_query u q =
    let found = words u [] q in elim found [ [] ↦ escape_fts_token q | t ∷ ts ↦ join_and (t ∷ ts) ]

-- The source's fallback for an exception is left out: nothing in the first way raises.
unfoldable pub residual_condition : Unicode → Text → Fragment
residual_condition u q =
    lit "m.id IN (SELECT rowid FROM image_metadata_fts WHERE image_metadata_fts MATCH "
    ⊕ bound (text (unicode_match_query u q))
    ⊕ lit ")"

-- _FIELD_HANDLERS, with the handler of all other fields.
unfoldable pub handle_field : Unicode → Python → FieldToken → Checked
handle_field u py ft =
    if same ft.field (codes "raw")
    then accepted (handle_raw ft)
    else if same ft.field (codes "param") || same ft.field (codes "advanced")
    then accepted (handle_json_field py ft)
    else if same ft.field (codes "model_or_hash")
    then accepted (handle_model_or_hash ft)
    else if same ft.field (codes "model")
    then accepted (handle_model u py ft)
    else if same ft.field (codes "size")
    then handle_size u py ft
    else if same ft.field (codes "path")
    then accepted (handle_path u ft)
    else if same ft.field (codes "resource_hash")
    then accepted (handle_resource_hash ft)
    else if same ft.field (codes "lora")
    then accepted (handle_lora ft)
    else handle_standard_field u py ft

pub data Outcome : Type 0 where
  built : Builder → Outcome
  raised : Invalid → Outcome

-- The first token that is refused ends the build.
unfoldable pub handle_each : Unicode → Python → List FieldToken → Builder → Outcome
handle_each u py [] b = built b
handle_each u py (t ∷ ts) b = elim (handle_field u py t) [
  | accepted f ↦ handle_each u py ts (add f b)
  | invalid e ↦ raised e
]

abbrev pub new_builder : Builder
new_builder = record { conditions = []; params = []; param_idx = 0 }

unfoldable pub build_fielded_conditions : Unicode → Python → ParsedQuery → Outcome
unfolding is_empty
build_fielded_conditions u py q = handle_each u py q.fields (
    if is_empty q.residual_text
    then new_builder
    else add (residual_condition u q.residual_text) new_builder)

-- "WHERE " and the conditions, joined by AND.
unfoldable pub join_conditions : List Condition → Condition
join_conditions [] = []
join_conditions (c ∷ []) = c
join_conditions (c ∷ d ∷ cs) = c ++ sql " AND " ∷ join_conditions (d ∷ cs)

unfoldable pub where_clause : List Condition → Condition
where_clause [] = []
where_clause (c ∷ cs) = sql "WHERE " ∷ join_conditions (c ∷ cs)
