-- ===== src/Scope/Scenarios.antt =====
-- The theorems on scopes in one small catalog.
use gallery.Base.{
  ℕ, zero, suc, ◌+◌, ◌-◌, ◌*◌, ◌≤◌, ◌<◌, ◌≡◌, refl, sym, ap, subst, ◌∙◌, ◌≢◌, ◌↔◌, ◌⊎◌, inl, inr,
  Bool, true, false, not, ◌&&◌, ◌||◌, Option, none, some, List, [], ◌∷◌, ◌++◌, map, arith, ltb, leb,
  ◌==◌, if◌then◌else◌, ltb→lt, leb→le, ==_iff, Bool-cases, Option-cases, some-injective, if-true,
  if-false, length, All, take, filter, Has, length-append,
}
use gallery.Base.Text.{Text, codes}
use gallery.Search.Chars.{Unicode}
use gallery.Scope.Excluded.{Surroundings}
use gallery.Scope.World.{Library, World, ok, ScopeContext, folder_context}
use gallery.Scope.Resolve.{
  ScopeInput, folder_scope, library_scope, resolve_search_scope, search_folder,
  resolve_search_v2_scope,
}
use gallery.Scope.Authorized.{Authorized, Deepest, resolve_search_scope-Deepest}
use gallery.Scope.ById.{resolve_search_v2_scope-Authorized}

abbrev ascii : Unicode
ascii = record {
  space = λ c. false;
  word = λ c. false;
  digit = λ c. false;
  fold = λ c. c;
  lower = λ c. c;
}

abbrev surroundings : Surroundings
surroundings = record {
  unicode = ascii;
  exclude_dirs = [];
  exclude_patterns = [];
  relative_to = λ p r. none;
  globmatch = λ s p. false;
}

-- One library over two nested roots.
abbrev photos : Library
photos = record {
  id = 3;
  name = codes "photos";
  import_paths = record { id = 7; path = codes "/g" } ∷ record { id = 8; path = codes "/g/b" } ∷ [];
  exclusion_patterns = [];
}

abbrev world : World
world = record {
  libraries = photos ∷ [];
  files =
      record {
        library_id = 3;
        path = codes "/g/b/c";
        is_folder = true;
        is_active = true;
        is_owned = true;
      }
      ∷ [];
  nfc = λ s. s;
  surroundings = surroundings;
}

abbrev in_second_root : ScopeContext
in_second_root = folder_context 3 (codes "photos") (codes "/g/b/c") 8 (codes "c")

resolved :
    resolve_search_scope world folder_scope none (some (codes "/g/b/./c")) ≡ ok in_second_root
unfolding gallery.Paths.Normal.normpath gallery.Paths.Normal.normal_components
    gallery.Paths.Normal.normal_step gallery.Paths.Normal.up gallery.Paths.Normal.split_slash
    gallery.Paths.Normal.join_slash gallery.Paths.Normal.is_blank
    gallery.Paths.Normal.initial_slashes gallery.Paths.Normal.path_parts
    gallery.Paths.Normal.without_blanks gallery.Paths.Containment.canonicalize_catalog_path
    gallery.Paths.Containment.rstrip_slash gallery.Paths.Containment.catalog_path_contains
    gallery.Paths.Containment.parts_below gallery.Paths.Containment.same_parts
    gallery.Paths.Containment.ends_slash gallery.Base.Text.same
    gallery.Scope.Excluded.is_index_excluded_path gallery.Scope.Excluded.any_part
    gallery.Scope.Excluded.plain_parts gallery.Scope.Excluded.excluded_dir_names
    gallery.Scope.Excluded.excluded_segments gallery.Scope.Excluded.any_segment
    gallery.Scope.Excluded.matches_library_exclusion gallery.Scope.Excluded.has_part
    gallery.Scope.Excluded.contains_segment gallery.Scope.Excluded.begins_parts
    gallery.Scope.Excluded.segment_of gallery.Scope.Excluded.forward gallery.Scope.Excluded.nonempty
    gallery.Search.Standard.split_commas gallery.Search.Values.part_of
    gallery.Search.Values.replace_char gallery.Search.Chars.strip gallery.Search.Chars.lstrip
    gallery.Search.Chars.rstrip gallery.Search.Chars.is_space gallery.Scope.Resolve.library_by_id
    gallery.Scope.Resolve.find_library gallery.Scope.Resolve.import_paths
    gallery.Scope.Resolve.encodable gallery.Scope.Resolve.is_relative_to
    gallery.Scope.Resolve.in_catalog gallery.Scope.Resolve.require_catalog_folder
    gallery.Scope.Resolve.any_row gallery.Scope.Resolve.is_witness gallery.Scope.Resolve.starts_with
    gallery.Scope.Resolve.resolve_search_scope gallery.Scope.Resolve.resolve_folder
    gallery.Scope.Resolve.selected_library gallery.Scope.Resolve.folder_of
    gallery.Scope.Resolve.is_absolute gallery.Scope.Resolve.owner_of gallery.Scope.Resolve.owners
    gallery.Scope.Resolve.owning gallery.Scope.Resolve.deepest gallery.Scope.Resolve.folder_in
    gallery.Scope.Resolve.longest gallery.Scope.Resolve.find_import_id
    gallery.Scope.Resolve.relative_catalog_path gallery.Scope.Resolve.join_parts
resolved = refl

resolve_search_scope-Deepest_example : Deepest world in_second_root
resolve_search_scope-Deepest_example =
    resolve_search_scope-Deepest world folder_scope none (some (codes "/g/b/./c")) in_second_root
      (inl refl) resolved

resolved_by_id : resolve_search_v2_scope world (search_folder 3 8 (codes "c")) ≡ ok in_second_root
unfolding gallery.Paths.Normal.normpath gallery.Paths.Normal.normal_components
    gallery.Paths.Normal.normal_step gallery.Paths.Normal.up gallery.Paths.Normal.split_slash
    gallery.Paths.Normal.join_slash gallery.Paths.Normal.is_blank
    gallery.Paths.Normal.initial_slashes gallery.Paths.Normal.path_parts
    gallery.Paths.Normal.without_blanks gallery.Paths.Containment.canonicalize_catalog_path
    gallery.Paths.Containment.rstrip_slash gallery.Paths.Containment.catalog_path_contains
    gallery.Paths.Containment.parts_below gallery.Paths.Containment.same_parts
    gallery.Paths.Containment.ends_slash gallery.Base.Text.same
    gallery.Scope.Excluded.is_index_excluded_path gallery.Scope.Excluded.any_part
    gallery.Scope.Excluded.plain_parts gallery.Scope.Excluded.excluded_dir_names
    gallery.Scope.Excluded.excluded_segments gallery.Scope.Excluded.any_segment
    gallery.Scope.Excluded.matches_library_exclusion gallery.Scope.Excluded.has_part
    gallery.Scope.Excluded.contains_segment gallery.Scope.Excluded.begins_parts
    gallery.Scope.Excluded.segment_of gallery.Scope.Excluded.forward gallery.Scope.Excluded.nonempty
    gallery.Search.Standard.split_commas gallery.Search.Values.part_of
    gallery.Search.Values.replace_char gallery.Search.Chars.strip gallery.Search.Chars.lstrip
    gallery.Search.Chars.rstrip gallery.Search.Chars.is_space gallery.Scope.Resolve.library_by_id
    gallery.Scope.Resolve.find_library gallery.Scope.Resolve.import_paths
    gallery.Scope.Resolve.encodable gallery.Scope.Resolve.is_relative_to
    gallery.Scope.Resolve.in_catalog gallery.Scope.Resolve.require_catalog_folder
    gallery.Scope.Resolve.any_row gallery.Scope.Resolve.is_witness gallery.Scope.Resolve.starts_with
    gallery.Scope.Resolve.resolve_search_v2_scope gallery.Scope.Resolve.resolve_folder_by_id
    gallery.Scope.Resolve.find_import gallery.Scope.Resolve.join_path
resolved_by_id = refl

resolve_search_v2_scope-Authorized_example :
    Authorized world in_second_root
    × (in_second_root.library_id ≡ some 3)
    × (in_second_root.import_path_id ≡ some 8)
resolve_search_v2_scope-Authorized_example =
    resolve_search_v2_scope-Authorized world 3 8 (codes "c") in_second_root resolved_by_id
