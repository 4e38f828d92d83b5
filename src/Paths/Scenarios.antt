-- ===== src/Paths/Scenarios.antt =====
-- The scope of a root at concrete paths.
use gallery.Base.{◌≡◌, refl, true}
use gallery.Base.Text.{codes, same}
use gallery.Search.LikeScenarios.{nocase}
use gallery.Paths.Normal.{
  initial_slashes, normpath, normal_components, normal_step, up, split_slash, join_slash, is_blank,
  path_parts, without_blanks,
}
use gallery.Paths.Containment.{
  canonicalize_catalog_path, catalog_path_contains, path_scope_sql, in_scope, rstrip_slash,
  parts_below, same_parts,
}
use gallery.Paths.ScopeSql.{in_scope-contains}
use gallery.Paths.Order.{contains_trans, contains_antisymm}

root_is_absolute : initial_slashes (codes "/g/a_b") ≡ 1
unfolding initial_slashes
root_is_absolute = refl

path_is_absolute : initial_slashes (codes "/g//./c/../a_b/x.png") ≡ 1
unfolding initial_slashes
path_is_absolute = refl

in_scope-contains_example :
    in_scope nocase
      (path_scope_sql (λ s. s) (codes "/g/a_b"))
      (canonicalize_catalog_path (λ s. s) (codes "/g//./c/../a_b/x.png"))
    ≡ catalog_path_contains (λ s. s) (codes "/g/a_b") (codes "/g//./c/../a_b/x.png")
in_scope-contains_example =
    in_scope-contains nocase (λ s. s) (codes "/g/a_b") (codes "/g//./c/../a_b/x.png")
      root_is_absolute path_is_absolute

made_canonical :
    canonicalize_catalog_path (λ s. s) (codes "/g//./c/../a_b/x.png") ≡ codes "/g/a_b/x.png"
unfolding canonicalize_catalog_path normpath normal_components normal_step up split_slash join_slash
    is_blank initial_slashes rstrip_slash same
made_canonical = refl

g_is_absolute : initial_slashes (codes "/g") ≡ 1
unfolding initial_slashes
g_is_absolute = refl

ga_is_absolute : initial_slashes (codes "/g/a") ≡ 1
unfolding initial_slashes
ga_is_absolute = refl

gab_is_absolute : initial_slashes (codes "/g/a/b") ≡ 1
unfolding initial_slashes
gab_is_absolute = refl

ga_again_is_absolute : initial_slashes (codes "/g//a/.") ≡ 1
unfolding initial_slashes
ga_again_is_absolute = refl

g_holds_ga : catalog_path_contains (λ s. s) (codes "/g") (codes "/g/a") ≡ true
unfolding catalog_path_contains canonicalize_catalog_path normpath normal_components normal_step up
    split_slash join_slash is_blank initial_slashes rstrip_slash same path_parts without_blanks
    parts_below same_parts
g_holds_ga = refl

ga_holds_gab : catalog_path_contains (λ s. s) (codes "/g/a") (codes "/g/a/b") ≡ true
unfolding catalog_path_contains canonicalize_catalog_path normpath normal_components normal_step up
    split_slash join_slash is_blank initial_slashes rstrip_slash same path_parts without_blanks
    parts_below same_parts
ga_holds_gab = refl

ga_holds_again : catalog_path_contains (λ s. s) (codes "/g/a") (codes "/g//a/.") ≡ true
unfolding catalog_path_contains canonicalize_catalog_path normpath normal_components normal_step up
    split_slash join_slash is_blank initial_slashes rstrip_slash same path_parts without_blanks
    parts_below same_parts
ga_holds_again = refl

again_holds_ga : catalog_path_contains (λ s. s) (codes "/g//a/.") (codes "/g/a") ≡ true
unfolding catalog_path_contains canonicalize_catalog_path normpath normal_components normal_step up
    split_slash join_slash is_blank initial_slashes rstrip_slash same path_parts without_blanks
    parts_below same_parts
again_holds_ga = refl

contains_trans_example : catalog_path_contains (λ s. s) (codes "/g") (codes "/g/a/b") ≡ true
contains_trans_example =
    contains_trans (λ s. s) (codes "/g") (codes "/g/a") g_is_absolute ga_is_absolute
      (codes "/g/a/b") gab_is_absolute g_holds_ga ga_holds_gab

contains_antisymm_example :
    canonicalize_catalog_path (λ s. s) (codes "/g/a")
    ≡ canonicalize_catalog_path (λ s. s) (codes "/g//a/.")
contains_antisymm_example =
    contains_antisymm (λ s. s) (codes "/g/a") (codes "/g//a/.") ga_is_absolute ga_again_is_absolute
      ga_holds_again again_holds_ga
