-- ===== src/Scope/ById.antt =====
-- The same for a scope that names its library and import path by their ids.
use gallery.Base.{
  ℕ, ◌||◌, ◌≡◌, sym, ap, subst, ◌∙◌, inl, inr, true, some, Bool-cases, Option-cases, Has,
}
use gallery.Base.Text.{Text, same}
use gallery.Paths.Normal.{split_slash}
use gallery.Paths.Containment.{canonicalize_catalog_path, catalog_path_contains}
use gallery.Scope.Excluded.{is_index_excluded_path}
use gallery.Scope.World.{ImportPath, Library, World, ok, ScopeContext, folder_context}
use gallery.Scope.Resolve.{
  library_by_id, find_library, find_import, in_catalog, encodable, require_catalog_folder,
  search_folder, join_path, resolve_folder_by_id, resolve_search_v2_scope,
}
use gallery.Scope.Picks.{ok-injective, find_library-Has, find_import-Has}
use gallery.Scope.Authorized.{Authorized}

-- The folder that a relative path names below an import path.
folder_below : World → ImportPath → Text → Text
folder_below w p relative =
    canonicalize_catalog_path w.nfc
      (join_path (canonicalize_catalog_path w.nfc p.path) (split_slash relative))

by_id-Authorized :
    (w : World) (x : Library) (i import_id : ℕ) (relative : Text) (ctx : ScopeContext)
    → Has x w.libraries
    → x.id ≡ i
    → resolve_folder_by_id w x i import_id relative ≡ ok ctx
    → Authorized w ctx × (ctx.library_id ≡ some i) × (ctx.import_path_id ≡ some import_id)
unfolding resolve_folder_by_id require_catalog_folder folder_below
by_id-Authorized w x i import_id relative ctx registered same_id h =
    elim (Option-cases (find_import import_id x.import_paths)) [
      | inl e ↦ absurd (cc (rw (e, resolve_folder_by_id) at h))
      | inr (p, e) ↦
          let entry = find_import-Has import_id x.import_paths p e in
          let root = canonicalize_catalog_path w.nfc p.path in
          let path = folder_below w p relative in
          let h1 = rw (e, resolve_folder_by_id) at h in
          elim (Bool-cases (catalog_path_contains w.nfc root path)) [
            | inr c ↦ absurd (cc (rw c at h1))
            | inl c ↦
                let h2 = rw c at h1 in
                elim (Bool-cases
                  (is_index_excluded_path w.surroundings path root x.exclusion_patterns)) [
                    | inl f ↦ absurd (cc (rw f at h2))
                    | inr f ↦
                        let h3 = rw f at h2 in
                        elim (Bool-cases (same path root || encodable path)) [
                          | inr b ↦ absurd (cc (rw b at h3))
                          | inl b ↦
                              let h4 = rw b at h3 in
                              elim (Bool-cases (in_catalog w i root path)) [
                                | inr g ↦ absurd (cc (rw g at h4))
                                | inl g ↦
                                    let named = sym (ok-injective _ _ (rw g at h4)) in
                                    (
                                      record {
                                        owner = x;
                                        entry = p;
                                        path = path;
                                        relative = relative;
                                        context =
                                            named
                                            ∙ ap
                                                (λ (n : ℕ).
                                                  folder_context n x.name path import_id relative)
                                                (sym same_id)
                                            ∙ ap
                                                (λ (n : ℕ).
                                                  folder_context x.id x.name path n relative)
                                                (sym entry.1);
                                        registered = registered;
                                        owned = entry.0;
                                        contained = c;
                                        allowed = f;
                                        present =
                                            subst (λ (n : ℕ). in_catalog w n root path ≡ true)
                                              (sym same_id) g;
                                      },
                                      ap (λ (c : ScopeContext). c.library_id) named,
                                      ap (λ (c : ScopeContext). c.import_path_id) named,
                                    )
                              ]
                        ]
                  ]
          ]
    ]

-- Whatever resolve_search_v2_scope returns for a folder scope names a folder of the library and the
-- import path that the scope names by id: both are registered, the import path contains the folder,
-- the folder is not excluded, and it is in the catalog.
pub resolve_search_v2_scope-Authorized :
    (w : World) (i import_id : ℕ) (relative : Text) (ctx : ScopeContext)
    → resolve_search_v2_scope w (search_folder i import_id relative) ≡ ok ctx
    → Authorized w ctx × (ctx.library_id ≡ some i) × (ctx.import_path_id ≡ some import_id)
unfolding resolve_search_v2_scope library_by_id
resolve_search_v2_scope-Authorized w i import_id relative ctx h =
    elim (Option-cases (find_library i w.libraries)) [
      | inl n ↦ absurd (cc (rw (n, resolve_search_v2_scope) at h))
      | inr (x, n) ↦
          let hit = find_library-Has i w.libraries x n in
          let h1 = rw (n, resolve_search_v2_scope) at h in
          by_id-Authorized w x i import_id relative ctx hit.0 hit.1 h1
    ]
