-- ===== src/Paths/Normal.antt =====
-- The functions of os.path and pathlib on POSIX that the paths go through: normpath and parts.
use gallery.Base.{
  ℕ, zero, suc, Bool, not, ◌&&◌, ◌||◌, List, [], ◌∷◌, ◌++◌, ltb, ◌==◌, if◌then◌else◌,
}
use gallery.Base.Text.{Text, codes, same}

abbrev pub slash : ℕ
slash = b'/'

abbrev pub cons_head : ℕ → List Text → List Text
cons_head c [] = (c ∷ []) ∷ []
cons_head c (x ∷ xs) = (c ∷ x) ∷ xs

-- text.split("/").
unfoldable pub split_slash : Text → List Text
split_slash [] = [] ∷ []
split_slash (c ∷ s) = if c == slash then [] ∷ split_slash s else cons_head c (split_slash s)

unfoldable pub join_slash : List Text → Text
join_slash [] = []
join_slash (x ∷ []) = x
join_slash (x ∷ y ∷ xs) = x ++ slash ∷ join_slash (y ∷ xs)

-- "" and "." name no component.
unfoldable pub is_blank : Text → Bool
is_blank s = same s [] || same s (codes ".")

abbrev pub is_up : Text → Bool
is_up s = same s (codes "..")

-- A path that starts with exactly two slashes keeps both.
unfoldable pub initial_slashes : Text → ℕ
initial_slashes [] = 0
initial_slashes (c ∷ []) = if c == slash then 1 else 0
initial_slashes (c ∷ d ∷ []) = if c == slash then (if d == slash then 2 else 1) else 0
initial_slashes (c ∷ d ∷ e ∷ s) =
    if c == slash then (if d == slash && not (e == slash) then 2 else 1) else 0

-- The components read so far stand in reverse.
unfoldable pub up : Bool → List Text → List Text
up absolute [] = if absolute then [] else codes ".." ∷ []
up absolute (x ∷ xs) = if is_up x then codes ".." ∷ x ∷ xs else xs

unfoldable pub normal_step : Bool → List Text → Text → List Text
normal_step absolute stack comp =
    if is_blank comp then stack else if is_up comp then up absolute stack else comp ∷ stack

abbrev pub backwards : List Text → List Text → List Text
backwards [] acc = acc
backwards (x ∷ xs) acc = backwards xs (x ∷ acc)

unfoldable pub normal_components : Bool → List Text → List Text → List Text
normal_components absolute stack [] = backwards stack []
normal_components absolute stack (comp ∷ comps) =
    normal_components absolute (normal_step absolute stack comp) comps

abbrev pub slashes : ℕ → Text
slashes zero = []
slashes (suc n) = slash ∷ slashes n

abbrev pub or_dot : Text → Text
or_dot [] = codes "."
or_dot (c ∷ s) = c ∷ s

-- os.path.normpath.
unfoldable pub normpath : Text → Text
normpath s =
    let n = initial_slashes s in
    or_dot (slashes n ++ join_slash (normal_components (ltb 0 n) [] (split_slash s)))

unfoldable pub without_blanks : List Text → List Text
without_blanks [] = []
without_blanks (x ∷ xs) = (if is_blank x then [] else x ∷ []) ++ without_blanks xs

-- Path(text).parts: the root, if there is one, and the components.
unfoldable pub path_parts : Text → List Text
path_parts s =
    let n = initial_slashes s in
    (if n == 0 then [] else slashes n ∷ []) ++ without_blanks (split_slash s)
