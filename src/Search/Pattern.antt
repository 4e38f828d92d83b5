-- ===== src/Search/Pattern.antt =====
-- FIELD_PATTERN and _normalize_field_name.
use gallery.Base.{
  Bool, true, false, not, ◌&&◌, Option, none, some, List, [], ◌∷◌, ◌==◌, if◌then◌else◌,
}
use gallery.Base.Text.{Text, codes, same}
use gallery.Search.Chars.{Unicode, is_word, fold, lstrip}

-- The alternatives in the order in which they are tried.
abbrev pub field_names : List Text
field_names =
    codes "prompt"
    ∷ codes "positive"
    ∷ codes "negative"
    ∷ codes "date"
    ∷ codes "generation_time"
    ∷ codes "gen_time"
    ∷ codes "source"
    ∷ codes "tool"
    ∷ codes "seed"
    ∷ codes "steps"
    ∷ codes "cfg"
    ∷ codes "cfg_scale"
    ∷ codes "sampler"
    ∷ codes "scheduler"
    ∷ codes "size"
    ∷ codes "width"
    ∷ codes "height"
    ∷ codes "aspect_ratio"
    ∷ codes "ratio"
    ∷ codes "model"
    ∷ codes "checkpoint"
    ∷ codes "model_hash"
    ∷ codes "model_or_hash"
    ∷ codes "lora"
    ∷ codes "resource"
    ∷ codes "resource_hash"
    ∷ codes "clip_skip"
    ∷ codes "hires_upscale"
    ∷ codes "hires_steps"
    ∷ codes "denoising_strength"
    ∷ codes "vae"
    ∷ codes "ensd"
    ∷ codes "aesthetic_score"
    ∷ codes "path"
    ∷ codes "folder"
    ∷ codes "location"
    ∷ codes "name"
    ∷ codes "param"
    ∷ codes "advanced"
    ∷ codes "raw"
    ∷ []

abbrev aliases : List (Text × Text)
aliases =
    (codes "positive", codes "prompt")
    ∷ (codes "gen_time", codes "generation_time")
    ∷ (codes "source", codes "tool")
    ∷ (codes "cfg", codes "cfg_scale")
    ∷ (codes "checkpoint", codes "model")
    ∷ (codes "ratio", codes "aspect_ratio")
    ∷ (codes "folder", codes "path")
    ∷ (codes "location", codes "path")
    ∷ (codes "resource", codes "lora")
    ∷ []

unfoldable pub find_alias : List (Text × Text) → Text → Text
find_alias [] f = f
find_alias ((a, g) ∷ r) f = if same a f then g else find_alias r f

unfoldable pub normalize_field_name : Text → Text
unfolding find_alias
normalize_field_name f = find_alias aliases f

-- A match of the name with its `\s*:\s*`: the text of the name and what follows the match.
pub record NameMatch : Type 0 where
  pub name : Text
  pub rest : Text

-- A match of the pattern in a text: what stands before it, too.
pub record FieldMatch : Type 0 where
  pub prefix : Text
  pub name : Text
  pub rest : Text

module _ (u : Unicode) where
  unfoldable pub match_letters : Text → Text → Option NameMatch
  match_letters [] s = some (record { name = []; rest = s })
  match_letters (p ∷ ps) [] = none
  match_letters (p ∷ ps) (c ∷ s) =
      let more = match_letters ps s in
      if fold u c == p
      then (elim more [ none ↦ none | some m ↦ some (record m { name = c ∷ m.name }) ])
      else none

  -- A text that starts with a colon, without it.
  unfoldable pub after_colon : Text → Option Text
  after_colon [] = none
  after_colon (c ∷ s) = if c == b':' then some (lstrip u s) else none

  unfoldable pub match_name : Text → Text → Option NameMatch
  match_name n s = elim (match_letters n s) [
    | none ↦ none
    | some m ↦ elim (after_colon (lstrip u m.rest)) [
      | none ↦ none
      | some r ↦ some (record m { rest = r })
    ]
  ]

  unfoldable pub match_names : List Text → Text → Option NameMatch
  match_names [] s = none
  match_names (n ∷ ns) s =
      let more = match_names ns s in elim (match_name n s) [ none ↦ more | some m ↦ some m ]

  unfoldable pub field_at : Text → Option NameMatch
  field_at s = match_names field_names s

  abbrev pub xor : Bool → Bool → Bool
  xor true b = not b
  xor false b = b

  -- The leftmost match; `before` says whether the character before is a word character, for `\b`.
  unfoldable pub search_from : Bool → Text → Option FieldMatch
  search_from before [] = none
  search_from before (c ∷ s) =
      let here = if xor before (is_word u c) then field_at (c ∷ s) else none in
      let later = search_from (is_word u c) s in
      elim here [
        | some m ↦ some (record { prefix = []; name = m.name; rest = m.rest })
        | none ↦ elim later [ none ↦ none | some m ↦ some (record m { prefix = c ∷ m.prefix }) ]
      ]

  unfoldable pub search_field : Text → Option FieldMatch
  search_field s = search_from false s

  -- The pattern matches at the very start.
  unfoldable pub starts_field : Text → Bool
  starts_field [] = false
  starts_field (c ∷ s) = is_word u c && elim (field_at (c ∷ s)) [ none ↦ false | some m ↦ true ]
