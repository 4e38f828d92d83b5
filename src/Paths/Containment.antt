-- ===== src/Paths/Containment.antt =====
-- canonicalize_catalog_path, catalog_path_contains and path_scope_sql, as they are on POSIX.
use gallery.Base.{
  ℕ, Bool, true, false, ◌&&◌, ◌||◌, List, [], ◌∷◌, ◌++◌, ltb, ◌==◌, if◌then◌else◌, length, take,
}
use gallery.Base.Text.{Text, codes, same}
use gallery.Search.Values.{replace_char}
use gallery.Search.Like.{LikeOperator}
use gallery.Paths.Normal.{slash, normpath, path_parts}

-- text.rstrip("/").
unfoldable pub rstrip_slash : Text → Text
rstrip_slash [] = []
rstrip_slash (c ∷ s) = elim (rstrip_slash s) [
  | [] ↦ if c == slash then [] else c ∷ []
  | d ∷ t ↦ c ∷ d ∷ t
]

-- unicodedata.normalize("NFC", text) is given from outside.
unfoldable pub canonicalize_catalog_path : (Text → Text) → Text → Text
canonicalize_catalog_path nfc path =
    let normalized = normpath (nfc path) in
    if same normalized (slash ∷ []) then normalized else rstrip_slash normalized

unfoldable pub same_parts : List Text → List Text → Bool
same_parts [] [] = true
same_parts [] (y ∷ ys) = false
same_parts (x ∷ xs) [] = false
same_parts (x ∷ xs) (y ∷ ys) = same x y && same_parts xs ys

unfoldable pub parts_below : List Text → List Text → Bool
parts_below root candidate =
    ltb (length root) (length candidate) && same_parts (take (length root) candidate) root

unfoldable pub catalog_path_contains : (Text → Text) → Text → Text → Bool
catalog_path_contains nfc root candidate =
    let root_text = canonicalize_catalog_path nfc root in
    let candidate_text = canonicalize_catalog_path nfc candidate in
    same candidate_text root_text || parts_below (path_parts root_text) (path_parts candidate_text)

unfoldable pub like_escape : Text → Text
like_escape s =
    replace_char b'_' (codes "\\_")
      (replace_char b'%' (codes "\\%") (replace_char 92 (codes "\\\\") s))

unfoldable pub ends_slash : Text → Bool
ends_slash [] = false
ends_slash (c ∷ []) = c == slash
ends_slash (c ∷ d ∷ s) = ends_slash (d ∷ s)

unfoldable pub scope_prefix : Text → Text
scope_prefix resolved = if ends_slash resolved then resolved else resolved ++ slash ∷ []

-- The parameters of path_scope_sql: the root, the LIKE pattern, the length of the prefix, the prefix.
pub record ScopeSql : Type 0 where
  pub root : Text
  pub pattern : Text
  pub prefix_length : ℕ
  pub prefix : Text

unfoldable pub path_scope_sql : (Text → Text) → Text → ScopeSql
path_scope_sql nfc root =
    let resolved = canonicalize_catalog_path nfc root in
    let prefix = scope_prefix resolved in
    record {
      root = resolved;
      pattern = like_escape prefix ++ b'%' ∷ [];
      prefix_length = length prefix;
      prefix = prefix;
    }

-- (column = ? OR (column LIKE ? ESCAPE '\' AND substr(column, 1, ?) = ?)).
unfoldable pub in_scope : LikeOperator → ScopeSql → Text → Bool
in_scope l q column =
    same column q.root || (l.like q.pattern column && same (take q.prefix_length column) q.prefix)
