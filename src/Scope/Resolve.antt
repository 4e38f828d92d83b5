-- ===== src/Scope/Resolve.antt =====
-- resolve_search_scope and resolve_search_v2_scope of backend/search_scope.py.
use gallery.Base.{
  ℕ, zero, suc, Bool, true, false, not, ◌&&◌, ◌||◌, Option, none, some, List, [], ◌∷◌, ◌++◌, map,
  ltb, ◌==◌, if◌then◌else◌, length, take,
}
use gallery.Base.Text.{Text, same}
use gallery.Search.Chars.{strip}
use gallery.Paths.Normal.{slash, split_slash, path_parts}
use gallery.Paths.Containment.{
  canonicalize_catalog_path, catalog_path_contains, ends_slash, same_parts,
}
use gallery.Scope.Excluded.{is_index_excluded_path}
use gallery.Scope.World.{
  ImportPath, Library, FileRow, World, Result, ◌>>=◌, ◌>>◌, Done, guard, missing, refused, found,
  ScopeContext, all_context, library_context, folder_context, stop_iteration, value_error,
  unicode_encode_error, ok, err,
}

unfoldable pub find_library : ℕ → List Library → Option Library
find_library i [] = none
find_library i (x ∷ xs) = if x.id == i then some x else find_library i xs

unfoldable pub library_by_id : World → ℕ → Result Library
library_by_id w i = found (find_library i w.libraries) (missing "Library not found")

unfoldable pub import_paths : World → List ImportPath → List Text
import_paths w [] = []
import_paths w (p ∷ ps) = canonicalize_catalog_path w.nfc p.path ∷ import_paths w ps

-- next(path_id for path_id, root in records if root == import_root).
unfoldable pub find_import_id : World → Text → List ImportPath → Option ℕ
find_import_id w root [] = none
find_import_id w root (p ∷ ps) =
    if same (canonicalize_catalog_path w.nfc p.path) root
    then some p.id
    else find_import_id w root ps

unfoldable pub find_import : ℕ → List ImportPath → Option ImportPath
find_import i [] = none
find_import i (p ∷ ps) = if p.id == i then some p else find_import i ps

unfoldable pub starts_with : Text → Text → Bool
starts_with [] s = true
starts_with (c ∷ p) [] = false
starts_with (c ∷ p) (d ∷ s) = (c == d) && starts_with p s

-- A row of the folder itself, or of an active file below it that the library owns.
unfoldable pub is_witness : ℕ → Text → FileRow → Bool
is_witness i path r =
    (r.library_id == i)
    && ((same r.path path && r.is_folder)
        || (starts_with (path ++ slash ∷ []) r.path && r.is_active && r.is_owned))

unfoldable pub any_row : ℕ → Text → List FileRow → Bool
any_row i path [] = false
any_row i path (r ∷ rs) = is_witness i path r || any_row i path rs

-- The early return for a root, or the answer of the query, when it can be asked.
unfoldable pub in_catalog : World → ℕ → Text → Text → Bool
in_catalog w i root path = same path root || any_row i path w.files

-- No code point of the text is a lone surrogate.
unfoldable pub encodable : Text → Bool
encodable [] = true
encodable (c ∷ s) = (ltb c 55296 || ltb 57343 c) && encodable s

-- A root needs no query; the query binds the path.
unfoldable pub require_catalog_folder : World → ℕ → Text → Text → Result Done
require_catalog_folder w i root path = do
  guard (same path root || encodable path) unicode_encode_error
  guard (in_catalog w i root path) (missing "Folder not found in catalog")

-- len(Path(root).parts), and max by it: the first of the longest.
abbrev pub depth : Text → ℕ
depth root = length (path_parts root)

unfoldable pub longest : Text → List Text → Text
longest best [] = best
longest best (r ∷ rs) = longest (if ltb (depth best) (depth r) then r else best) rs

unfoldable pub owning : World → Text → List Text → List Text
owning w path [] = []
owning w path (r ∷ rs) =
    let rest = owning w path rs in if catalog_path_contains w.nfc r path then r ∷ rest else rest

unfoldable pub join_parts : List Text → Text
join_parts [] = []
join_parts (p ∷ []) = p
join_parts (p ∷ q ∷ ps) = p ++ slash ∷ join_parts (q ∷ ps)

abbrev drop_parts : ℕ → List Text → List Text
drop_parts zero ps = ps
drop_parts (suc n) [] = []
drop_parts (suc n) (p ∷ ps) = drop_parts n ps

unfoldable pub is_absolute : Text → Bool
is_absolute [] = false
is_absolute (c ∷ s) = c == slash

-- Path(path).is_relative_to(root): a path with no parts is above the relative paths only.
unfoldable pub is_relative_to : Text → Text → Bool
is_relative_to root path = elim (path_parts root) [
  | [] ↦ not (is_absolute path)
  | p ∷ ps ↦ same_parts (take (length (p ∷ ps)) (path_parts path)) (p ∷ ps)
]

-- Path(folder).relative_to(root), as a POSIX path; none is its ValueError.
unfoldable pub relative_catalog_path : Text → Text → Option Text
unfolding drop_parts
relative_catalog_path root path =
    if is_relative_to root path
    then some (join_parts (drop_parts (depth root) (path_parts path)))
    else none

-- The candidates of all libraries in order, with max by the depth of the root.
unfoldable pub owners : World → Text → List Library → List (Library × Text)
owners w path [] = []
owners w path (x ∷ xs) =
    map (λ (r : Text). (x, r)) (owning w path (import_paths w x.import_paths)) ++ owners w path xs

unfoldable pub deepest : Library × Text → List (Library × Text) → Library
deepest best [] = best.0
deepest best (x ∷ xs) = deepest (if ltb (depth best.1) (depth x.1) then x else best) xs

unfoldable pub owner_of : World → Text → Option Library
owner_of w path = elim (owners w path w.libraries) [ [] ↦ none | x ∷ xs ↦ some (deepest x xs) ]

pub data ScopeInput : Type 0 where
  current_scope folder_scope library_scope all_scope : ScopeInput

abbrev pub first_library : List Library → Option Library
first_library [] = none
first_library (x ∷ xs) = some x

abbrev pub or_first : World → Option Library → Option Library
or_first w none = first_library w.libraries
or_first w (some x) = some x

abbrev pub roots_of : World → Option Library → List Text
roots_of w none = []
roots_of w (some x) = import_paths w x.import_paths

abbrev pub first_root : Option Library → List Text → Result (Text × Option Library)
first_root selected [] = err (refused "path required for folder scope")
first_root selected (r ∷ rs) = ok (r, selected)

-- `path is not None and path.strip()`.
abbrev pub given_path : World → Option Text → Option Text
given_path w none = none
given_path w (some p) = elim (strip w.surroundings.unicode p) [ [] ↦ none | c ∷ s ↦ some p ]

unfoldable pub selected_library : World → Option ℕ → Result (Option Library)
selected_library w none = ok none
selected_library w (some i) = do x ← library_by_id w i; ok (some x)

-- The folder that is meant, and the library that is selected with it.
unfoldable pub folder_of : World → Option Library → Option Text → Result (Text × Option Library)
unfolding first_root or_first roots_of first_library
folder_of w selected none = first_root (or_first w selected) (roots_of w (or_first w selected))
folder_of w selected (some p) = do
  guard (is_absolute p) (refused "Folder path must be absolute")
  ok (canonicalize_catalog_path w.nfc p, selected)

abbrev pub or_owner : World → Text → Option Library → Option Library
or_owner w path none = owner_of w path
or_owner w path (some x) = some x

abbrev pub longest_of : List Text → Option Text
longest_of [] = none
longest_of (r ∷ rs) = some (longest r rs)

-- The checks on a folder in a library, and its context.
unfoldable pub folder_in : World → Library → Text → Result ScopeContext
unfolding longest_of
folder_in w x path = do
  root ←
      found (longest_of (owning w path (import_paths w x.import_paths)))
        (missing "Folder is outside the selected library")
  guard (not (is_index_excluded_path w.surroundings path root x.exclusion_patterns))
      (missing "Folder is excluded from the selected library")
  require_catalog_folder w x.id root path
  i ← found (find_import_id w root x.import_paths) stop_iteration
  relative ← found (relative_catalog_path root path) value_error
  ok (folder_context x.id x.name path i relative)

unfoldable pub resolve_folder : World → Option ℕ → Option Text → Result ScopeContext
unfolding given_path or_owner
resolve_folder w i path = do
  selected ← selected_library w i
  chosen ← folder_of w selected (given_path w path)
  x ← found (or_owner w chosen.0 chosen.1) (missing "Folder is outside registered libraries")
  folder_in w x chosen.0

unfoldable pub resolve_library : World → Option ℕ → Result ScopeContext
resolve_library w none = err (refused "library_id is required for library scope")
resolve_library w (some i) = do x ← library_by_id w i; ok (library_context i x.name)

unfoldable pub resolve_search_scope :
    World → ScopeInput → Option ℕ → Option Text → Result ScopeContext
resolve_search_scope w all_scope i path = ok all_context
resolve_search_scope w library_scope i path = resolve_library w i
resolve_search_scope w folder_scope i path = resolve_folder w i path
resolve_search_scope w current_scope i path = resolve_folder w i path

pub data SearchScope : Type 0 where
  search_all : SearchScope
  search_library : ℕ → SearchScope
  search_folder : ℕ → ℕ → Text → SearchScope

abbrev pub join_one : Text → Text → Text
join_one root part =
    if same part [] then root else if ends_slash root then root ++ part else root ++ slash ∷ part

-- Path(import_root, *relative_path.split("/")); no part begins with a slash.
unfoldable pub join_path : Text → List Text → Text
unfolding join_one
join_path root [] = root
join_path root (p ∷ ps) = join_path (join_one root p) ps

unfoldable pub resolve_folder_by_id : World → Library → ℕ → ℕ → Text → Result ScopeContext
resolve_folder_by_id w x library_id import_id relative = do
  p ←
      found (find_import import_id x.import_paths)
        (missing "Import path not found in selected library")
  let root = canonicalize_catalog_path w.nfc p.path
  let path = canonicalize_catalog_path w.nfc (join_path root (split_slash relative))
  guard (catalog_path_contains w.nfc root path)
      (missing "Folder is outside the selected import path")
  guard (not (is_index_excluded_path w.surroundings path root x.exclusion_patterns))
      (missing "Folder is excluded from the selected library")
  require_catalog_folder w library_id root path
  ok (folder_context library_id x.name path import_id relative)

unfoldable pub resolve_search_v2_scope : World → SearchScope → Result ScopeContext
resolve_search_v2_scope w search_all = ok all_context
resolve_search_v2_scope w (search_library i) = do
  x ← library_by_id w i
  ok (library_context i x.name)
resolve_search_v2_scope w (search_folder i import_id relative) = do
  x ← library_by_id w i
  resolve_folder_by_id w x i import_id relative
