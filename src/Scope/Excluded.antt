-- ===== src/Scope/Excluded.antt =====
-- is_index_excluded_path of backend/files.py.
use gallery.Base.{
  zero, suc, Bool, true, false, not, ◌&&◌, ◌||◌, Option, none, some, List, [], ◌∷◌, ◌++◌, map, ◌==◌,
  if◌then◌else◌,
}
use gallery.Base.Text.{Text, codes, same}
use gallery.Search.Chars.{Unicode}
use gallery.Search.Values.{replace_char}
use gallery.Search.Standard.{split_commas}
use gallery.Paths.Normal.{slash, split_slash, initial_slashes, path_parts}

-- What is read from outside: the two environment variables, Path.resolve followed by relative_to, as
-- the relative path or `none` where one of them raises, and wcmatch's globmatch under its flags.
pub record Surroundings : Type 0 where
  pub unicode : Unicode
  pub exclude_dirs : Text
  pub exclude_patterns : Text
  pub relative_to : Text → Text → Option Text
  pub globmatch : Text → Text → Bool

abbrev pub default_dir_names : List Text
default_dir_names =
    codes ".git"
    ∷ codes ".cache"
    ∷ codes ".mypy_cache"
    ∷ codes ".pytest_cache"
    ∷ codes ".ruff_cache"
    ∷ codes "node_modules"
    ∷ codes "__pycache__"
    ∷ codes ".venv"
    ∷ codes "venv"
    ∷ []

abbrev pub default_segments : List (List Text)
default_segments =
    (codes "frontend" ∷ codes "public" ∷ [])
    ∷ (codes "frontend" ∷ codes "dist" ∷ [])
    ∷ (codes "frontend" ∷ codes "build" ∷ [])
    ∷ (codes "frontend" ∷ codes "coverage" ∷ [])
    ∷ (codes "frontend" ∷ codes "test-results" ∷ [])
    ∷ (codes "frontend" ∷ codes "playwright-report" ∷ [])
    ∷ (codes "backend" ∷ codes "__pycache__" ∷ [])
    ∷ (codes "backend" ∷ codes ".cache" ∷ [])
    ∷ []

-- Backslashes become slashes.
unfoldable pub forward : Text → Text
forward s = replace_char 92 (slash ∷ []) s

unfoldable pub nonempty : List Text → List Text
nonempty [] = []
nonempty (x ∷ xs) = (if same x [] then [] else x ∷ []) ++ nonempty xs

unfoldable pub segment_of : Text → List Text
segment_of item = nonempty (split_slash (forward item))

unfoldable pub excluded_dir_names : Surroundings → List Text
excluded_dir_names w = default_dir_names ++ split_commas w.unicode [] w.exclude_dirs

unfoldable pub excluded_segments : Surroundings → List (List Text)
excluded_segments w =
    default_segments ++ map segment_of (split_commas w.unicode [] w.exclude_patterns)

abbrev drop_first : List Text → List Text
drop_first [] = []
drop_first (x ∷ xs) = xs

-- The components without the anchor.
unfoldable pub plain_parts : Text → List Text
unfolding drop_first
plain_parts path =
    let s = forward path in
    elim (initial_slashes s) [ zero ↦ path_parts s | suc n ↦ drop_first (path_parts s) ]

unfoldable pub has_part : Text → List Text → Bool
has_part s [] = false
has_part s (x ∷ xs) = same x s || has_part s xs

unfoldable pub any_part : List Text → List Text → Bool
any_part [] names = false
any_part (p ∷ ps) names = has_part p names || any_part ps names

unfoldable pub begins_parts : List Text → List Text → Bool
begins_parts [] ps = true
begins_parts (s ∷ ss) [] = false
begins_parts (s ∷ ss) (p ∷ ps) = same p s && begins_parts ss ps

-- Some window of the parts is the segment, which is not empty.
unfoldable pub contains_segment : List Text → List Text → Bool
contains_segment ps [] = false
contains_segment [] (s ∷ ss) = false
contains_segment (p ∷ ps) (s ∷ ss) = begins_parts (s ∷ ss) (p ∷ ps) || contains_segment ps (s ∷ ss)

unfoldable pub any_segment : List Text → List (List Text) → Bool
any_segment ps [] = false
any_segment ps (s ∷ ss) = contains_segment ps s || any_segment ps ss

unfoldable pub rstrip_slashes : Text → Text
rstrip_slashes [] = []
rstrip_slashes (c ∷ s) = elim (rstrip_slashes s) [
  | [] ↦ if c == slash then [] else c ∷ []
  | d ∷ t ↦ c ∷ d ∷ t
]

-- The path itself, or the path as a folder.
unfoldable pub any_glob : Surroundings → List Text → Text → Bool
any_glob w [] relative = false
any_glob w (p ∷ ps) relative =
    w.globmatch relative p
    || w.globmatch (rstrip_slashes relative ++ slash ∷ []) p
    || any_glob w ps relative

unfoldable pub matches_library_exclusion : Surroundings → Text → Text → List Text → Bool
matches_library_exclusion w path root patterns = elim (w.relative_to path root) [
  | none ↦ false
  | some relative ↦
      not (same relative [] || same relative (codes ".")) && any_glob w patterns relative
]

unfoldable pub is_index_excluded_path : Surroundings → Text → Text → List Text → Bool
is_index_excluded_path w path root patterns =
    any_part (plain_parts path) (excluded_dir_names w)
    || any_segment (plain_parts path) (excluded_segments w)
    || matches_library_exclusion w path root patterns
