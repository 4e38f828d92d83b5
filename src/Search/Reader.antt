-- ===== src/Search/Reader.antt =====
-- _read_field_value. The state of the parser is the text from its cursor on.
use gallery.Base.{ℕ, Bool, ◌&&◌, ◌||◌, Option, none, some, [], ◌∷◌, ◌==◌, if◌then◌else◌}
use gallery.Base.Text.{Text}
use gallery.Search.Chars.{Unicode, rstrip}
use gallery.Search.Pattern.{starts_field}

-- A value, the quote it stood in, and the text after it.
pub record Read : Type 0 where
  pub value : Text
  pub quote : Option ℕ
  pub rest : Text

abbrev pub is_quote : ℕ → Bool
is_quote c = c == b'"' || c == 39

abbrev pub backslash : ℕ
backslash = 92

-- The value up to the quote or the end; a backslash quotes the quote and itself.
unfoldable pub read_quoted : ℕ → Text → Text × Text
read_quoted q [] = ([], [])
read_quoted q (c ∷ []) = if c == q then ([], []) else (c ∷ [], [])
read_quoted q (c ∷ d ∷ s) =
    let escaped = read_quoted q s in
    let more = read_quoted q (d ∷ s) in
    if c == backslash && (d == q || d == backslash)
    then (d ∷ escaped.0, escaped.1)
    else if c == q
    then ([], d ∷ s)
    else (c ∷ more.0, more.1)

unfoldable pub skip_blanks : Text → Text
skip_blanks [] = []
skip_blanks (c ∷ s) = if c == b' ' then skip_blanks s else c ∷ s

module _ (u : Unicode) where
  -- The value up to a blank, a quote, the next field or the end.
  unfoldable pub read_plain : Text → Text × Text
  read_plain [] = ([], [])
  read_plain (c ∷ s) =
      let more = read_plain s in
      if c == b' ' || is_quote c || starts_field u (c ∷ s)
      then ([], c ∷ s)
      else (c ∷ more.0, more.1)

  unfoldable pub read_at : Text → Read
  read_at [] = record { value = []; quote = none; rest = [] }
  read_at (c ∷ s) =
      let quoted = read_quoted c s in
      let plain = read_plain (c ∷ s) in
      if is_quote c
      then record { value = quoted.0; quote = some c; rest = quoted.1 }
      else record { value = rstrip u plain.0; quote = none; rest = plain.1 }

  unfoldable pub read_field_value : Text → Read
  read_field_value s = read_at (skip_blanks s)
