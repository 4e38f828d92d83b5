-- ===== src/Scope/Authorized.antt =====
-- A folder that a search is limited to lies in a registered root, is not excluded and is in the catalog.
use gallery.Base.{
  ℕ, ◌≤◌, ◌≡◌, refl, sym, ap, subst, ◌∙◌, ◌⊎◌, inl, inr, Bool, true, false, not, ◌||◌, Option, none,
  some, List, [], ◌∷◌, arith, Bool-cases, Option-cases, some-injective, Has,
}
use gallery.Base.Text.{Text, same}
use gallery.Paths.Containment.{canonicalize_catalog_path, catalog_path_contains}
use gallery.Scope.Excluded.{is_index_excluded_path}
use gallery.Scope.World.{
  ImportPath, Library, World, Failure, Result, ok, err, ScopeContext, folder_context,
}
use gallery.Scope.Resolve.{
  find_library, library_by_id, import_paths, find_import_id, depth, longest, longest_of, owning,
  in_catalog, encodable, require_catalog_folder, relative_catalog_path, or_owner, ScopeInput,
  folder_scope, current_scope, library_scope, all_scope, selected_library, folder_of, folder_in,
  resolve_folder, resolve_search_scope, given_path, first_root, or_first, is_absolute,
  first_library,
}
use gallery.Scope.Picks.{
  ok-injective, find_library-Has, find_import_id-Has, owning-Has, owning-keeps, longest-Has,
  longest-max, owner_of-Has,
}

-- The context names a folder of a registered library, in one of its import paths.
pub record Authorized (w : World) (ctx : ScopeContext) : Type 0 where
  pub owner : Library
  pub entry : ImportPath
  pub path : Text
  pub relative : Text
  pub context : ctx ≡ folder_context owner.id owner.name path entry.id relative
  pub registered : Has owner w.libraries
  pub owned : Has entry owner.import_paths
  pub contained :
      catalog_path_contains w.nfc (canonicalize_catalog_path w.nfc entry.path) path ≡ true
  pub allowed :
      is_index_excluded_path w.surroundings path
        (canonicalize_catalog_path w.nfc entry.path)
        owner.exclusion_patterns
      ≡ false
  pub present : in_catalog w owner.id (canonicalize_catalog_path w.nfc entry.path) path ≡ true

-- No import path of the library that contains the folder is longer.
pub record Deepest (w : World) (ctx : ScopeContext) : Type 0 where
  pub authorized : Authorized w ctx
  pub deepest :
      (r : Text)
      → Has r (import_paths w authorized.owner.import_paths)
      → catalog_path_contains w.nfc r authorized.path ≡ true
      → depth r ≤ depth (canonicalize_catalog_path w.nfc authorized.entry.path)

not-eq : (b : Bool) → not b ≡ true → b ≡ false
not-eq b h = ground arith

pub longest_of-Has :
    (rs : List Text) (root : Text)
    → longest_of rs ≡ some root
    → Has root rs × ((r : Text) → Has r rs → depth r ≤ depth root)
longest_of-Has [] root h = absurd (cc h)
longest_of-Has (r ∷ rs) root h =
    let e : longest r rs ≡ root = some-injective _ _ h in
    (
      subst (λ (x : Text). Has x (r ∷ rs)) e (longest-Has r rs),
      λ q m. omega (arith, longest-max r rs q m, ap (λ (s : Text). depth s) e),
    )

folder_in-Deepest :
    (w : World) (x : Library) (path : Text) (ctx : ScopeContext)
    → Has x w.libraries
    → folder_in w x path ≡ ok ctx
    → Deepest w ctx
unfolding folder_in require_catalog_folder
folder_in-Deepest w x path ctx registered h =
    let roots = owning w path (import_paths w x.import_paths) in
    elim (Option-cases (longest_of roots)) [
      | inl e ↦ absurd (cc (rw (e, folder_in) at h))
      | inr (root, e) ↦
          let top = longest_of-Has roots root e in
          let own = owning-Has w path (import_paths w x.import_paths) root top.0 in
          let h1 = rw (e, folder_in) at h in
          elim (Bool-cases (is_index_excluded_path w.surroundings path root x.exclusion_patterns)) [
            | inl f ↦ absurd (cc (rw f at h1))
            | inr f ↦
                let h2 = rw f at h1 in
                elim (Bool-cases (same path root || encodable path)) [
                  | inr b ↦ absurd (cc (rw b at h2))
                  | inl b ↦
                      let h2b = rw b at h2 in
                      elim (Bool-cases (in_catalog w x.id root path)) [
                        | inr g ↦ absurd (cc (rw g at h2b))
                        | inl g ↦
                            let h3 = rw g at h2b in
                            elim (Option-cases (find_import_id w root x.import_paths)) [
                              | inl k ↦ absurd (cc (rw k at h3))
                              | inr (i, k) ↦ elim (Option-cases (relative_catalog_path root path)) [
                                | inl none_below ↦ absurd (cc (rw none_below at (rw k at h3)))
                                | inr (below, u) ↦
                                    let p = find_import_id-Has w root x.import_paths i k in
                                    let same_root : root
                                        ≡ canonicalize_catalog_path w.nfc p.0.path =
                                      sym p.2 in
                                    record {
                                      authorized = record {
                                        owner = x;
                                        entry = p.0;
                                        path = path;
                                        relative = below;
                                        context =
                                            sym (ok-injective _ _ (rw u at (rw k at h3)))
                                            ∙ ap
                                                (λ (n : ℕ). folder_context x.id x.name path n below)
                                                (sym p.3);
                                        registered = registered;
                                        owned = p.1;
                                        contained =
                                            subst
                                              (λ (r : Text).
                                                catalog_path_contains w.nfc r path ≡ true)
                                              same_root own.1;
                                        allowed =
                                            subst
                                              (λ (r : Text).
                                                is_index_excluded_path w.surroundings path r
                                                  x.exclusion_patterns
                                                ≡ false)
                                              same_root f;
                                        present =
                                            subst (λ (r : Text). in_catalog w x.id r path ≡ true)
                                              same_root g;
                                      };
                                      deepest = λ r m c. omega (
                                        arith,
                                        top.1 r (
                                            owning-keeps w path (import_paths w x.import_paths) r m
                                              c),
                                        ap (λ (q : Text). depth q) same_root,
                                      );
                                    }
                              ]
                            ]
                      ]
                ]
          ]
    ]

-- A library that is selected is a registered one.
abbrev Known : World → Option Library → Type 0
Known w o = (y : Library) → o ≡ some y → Has y w.libraries

first_root-eq :
    (o : Option Library) (rs : List Text) (chosen : Text × Option Library)
    → first_root o rs ≡ ok chosen
    → o ≡ chosen.1
first_root-eq o [] chosen h = absurd (cc h)
first_root-eq o (r ∷ rs) chosen h = ap (λ (p : Text × Option Library). p.1) (ok-injective _ _ h)

first_library-Has : (xs : List Library) (y : Library) → first_library xs ≡ some y → Has y xs
first_library-Has [] y h = absurd (cc h)
first_library-Has (x ∷ xs) y h = inl (sym (some-injective _ _ h))

or_first-Known : (w : World) (o : Option Library) → Known w o → Known w (or_first w o)
or_first-Known w none known y h = first_library-Has w.libraries y h
or_first-Known w (some x) known y h = known y h

folder_of-Known :
    (w : World) (selected : Option Library) (path : Option Text) (chosen : Text × Option Library)
    → Known w selected
    → folder_of w selected path ≡ ok chosen
    → Known w chosen.1
unfolding folder_of
folder_of-Known w selected none chosen known h y e =
    or_first-Known w selected known y (first_root-eq _ _ chosen h ∙ e)
folder_of-Known w selected (some p) chosen known h y e = elim (Bool-cases (is_absolute p)) [
  | inl a ↦
      known y
        (ap (λ (q : Text × Option Library). q.1) (ok-injective _ _ (rw (a, folder_of) at h)) ∙ e)
  | inr a ↦ absurd (cc (rw (a, folder_of) at h))
]

or_owner-Has :
    (w : World) (path : Text) (o : Option Library) (x : Library)
    → Known w o
    → or_owner w path o ≡ some x
    → Has x w.libraries
or_owner-Has w path none x known h = owner_of-Has w path x h
or_owner-Has w path (some y) x known h = known x h

selected-Known :
    (w : World) (i : Option ℕ) (o : Option Library) → selected_library w i ≡ ok o → Known w o
unfolding selected_library library_by_id
selected-Known w none o h y e = absurd (cc (ok-injective _ _ h, e))
selected-Known w (some i) o h y e = elim (Option-cases (find_library i w.libraries)) [
  | inl n ↦ absurd (cc (rw (n, selected_library) at h))
  | inr (x, f) ↦
      let hit : some x ≡ o = ok-injective _ _ (rw (f, selected_library) at h) in
      (find_library-Has i w.libraries y (f ∙ hit ∙ e)).0
]

-- The two cases of a result.
pub Result-cases :
    {A : Type 0} (r : Result A) → ((a : A) × (r ≡ ok a)) ⊎ ((e : Failure) × (r ≡ err e))
Result-cases (ok a) = inl (a, refl)
Result-cases (err e) = inr (e, refl)

resolve_folder-Deepest :
    (w : World) (i : Option ℕ) (path : Option Text) (ctx : ScopeContext)
    → resolve_folder w i path ≡ ok ctx
    → Deepest w ctx
unfolding resolve_folder
resolve_folder-Deepest w i path ctx h = elim (Result-cases (selected_library w i)) [
  | inr (x, e) ↦ absurd (cc (rw (e, resolve_folder) at h))
  | inl (o, e) ↦
      let h1 = rw (e, resolve_folder) at h in
      elim (Result-cases (folder_of w o (given_path w path))) [
        | inr (x, f) ↦ absurd (cc (rw f at h1))
        | inl (chosen, f) ↦
            let h2 = rw f at h1 in
            elim (Option-cases (or_owner w chosen.0 chosen.1)) [
              | inl n ↦ absurd (cc (rw n at h2))
              | inr (x, n) ↦
                  folder_in-Deepest w x chosen.0 ctx
                    (or_owner-Has w chosen.0 chosen.1 x
                      (folder_of-Known w o (given_path w path) chosen (selected-Known w i o e) f) n)
                    (rw n at h2)
            ]
      ]
]

-- Whatever resolve_search_scope returns for the scopes current and folder names a folder of a
-- registered library, in one of its import paths that contains it, not excluded and in the catalog;
-- and no import path of the library that contains the folder is longer than that one.
pub resolve_search_scope-Deepest :
    (w : World) (scope : ScopeInput) (i : Option ℕ) (path : Option Text) (ctx : ScopeContext)
    → (scope ≡ folder_scope) ⊎ (scope ≡ current_scope)
    → resolve_search_scope w scope i path ≡ ok ctx
    → Deepest w ctx
unfolding resolve_search_scope
resolve_search_scope-Deepest w folder_scope i path ctx s h = resolve_folder-Deepest w i path ctx h
resolve_search_scope-Deepest w current_scope i path ctx s h = resolve_folder-Deepest w i path ctx h
resolve_search_scope-Deepest w library_scope i path ctx (inl e) h = absurd (cc e)
resolve_search_scope-Deepest w library_scope i path ctx (inr e) h = absurd (cc e)
resolve_search_scope-Deepest w all_scope i path ctx (inl e) h = absurd (cc e)
resolve_search_scope-Deepest w all_scope i path ctx (inr e) h = absurd (cc e)
