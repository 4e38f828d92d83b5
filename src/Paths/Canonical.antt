-- ===== src/Paths/Canonical.antt =====
-- The canonical form of an absolute path, and its parts.
use gallery.Base.{
  ℕ, ◌≡◌, refl, ap, ◌∙◌, Bool, true, false, not, ◌&&◌, List, [], ◌∷◌, ◌++◌, arith, ◌==◌, All,
}
use gallery.Base.Text.{Text, same}
use gallery.Paths.Normal.{
  slash, split_slash, join_slash, is_blank, initial_slashes, normal_components, normpath,
  without_blanks, path_parts,
}
use gallery.Paths.Containment.{rstrip_slash, canonicalize_catalog_path, ends_slash}
use gallery.Paths.Components.{
  no_slash, IsComponent, components_of_split, path_text, join-path_text, empty-component, ends_path,
  split-path,
}

-- The text of a normal absolute path.
unfoldable pub canonical_text : List Text → Text
canonical_text [] = slash ∷ []
canonical_text (c ∷ cs) = path_text (c ∷ cs)

rstrip_slash-id : (s : Text) → ends_slash s ≡ false → rstrip_slash s ≡ s
unfolding rstrip_slash ends_slash
rstrip_slash-id [] h = refl
rstrip_slash-id (c ∷ []) h = rw h refl
rstrip_slash-id (c ∷ d ∷ s) h = rw (rstrip_slash-id (d ∷ s) h, rstrip_slash) refl

pub ends-path_text :
    (c : Text) (cs : List Text) → All IsComponent (c ∷ cs) → ends_slash (path_text (c ∷ cs)) ≡ false
unfolding path_text
ends-path_text [] cs a = absurd (empty-component a.0)
ends-path_text (d ∷ c) cs a = ends_path slash d c cs a.0.single a.1

normpath-absolute :
    (s : Text) (cs : List Text)
    → initial_slashes s ≡ 1
    → normal_components true [] (split_slash s) ≡ cs
    → normpath s ≡ canonical_text cs
unfolding normpath canonical_text join_slash
normpath-absolute s [] h e = rw h (rw e refl)
normpath-absolute s (c ∷ cs) h e = rw h (rw e (join-path_text c cs))

not_root :
    (c : Text) (cs : List Text)
    → All IsComponent (c ∷ cs)
    → same (path_text (c ∷ cs)) (slash ∷ []) ≡ false
unfolding path_text same
not_root [] cs a = absurd (empty-component a.0)
not_root (d ∷ c) cs a = refl

canonical-of_normal :
    (nfc : Text → Text) (p : Text) (cs : List Text)
    → All IsComponent cs
    → normpath (nfc p) ≡ canonical_text cs
    → canonicalize_catalog_path nfc p ≡ canonical_text cs
unfolding canonicalize_catalog_path canonical_text same
canonical-of_normal nfc p [] a h = rw (h, canonicalize_catalog_path) refl
canonical-of_normal nfc p (c ∷ cs) a h =
    rw (h, canonicalize_catalog_path)
      (rw (not_root c cs a) (rstrip_slash-id (path_text (c ∷ cs)) (ends-path_text c cs a)))

-- An absolute path is made canonical as the text of its components.
pub canonical_form :
    (nfc : Text → Text) (p : Text)
    → initial_slashes (nfc p) ≡ 1
    → (cs : List Text) × All IsComponent cs × (canonicalize_catalog_path nfc p ≡ canonical_text cs)
canonical_form nfc p h =
    let cs = normal_components true [] (split_slash (nfc p)) in
    let good = components_of_split (nfc p) in
    (cs, good, canonical-of_normal nfc p cs good (normpath-absolute (nfc p) cs h refl))

one_slash : (d : ℕ) (s : Text) → (d == slash) ≡ false → initial_slashes (slash ∷ d ∷ s) ≡ 1
unfolding initial_slashes
one_slash d [] h = rw h refl
one_slash d (e ∷ s) h = rw h refl

first_is_false : (b c : Bool) → (not b && c) ≡ true → b ≡ false
first_is_false b c h = ground arith

initial-path_text :
    (c : Text) (cs : List Text)
    → All IsComponent (c ∷ cs)
    → initial_slashes (path_text (c ∷ cs)) ≡ 1
unfolding path_text no_slash
initial-path_text [] cs a = absurd (empty-component a.0)
initial-path_text (d ∷ c) cs a = one_slash d (c ++ path_text cs) (first_is_false _ _ a.0.single)

without_blanks-id : (cs : List Text) → All IsComponent cs → without_blanks cs ≡ cs
unfolding without_blanks
without_blanks-id [] a = refl
without_blanks-id (c ∷ cs) a =
    rw (a.0.named) (ap (λ (l : List Text). c ∷ l) (without_blanks-id cs a.1))

split-path_text :
    (c : Text) (cs : List Text)
    → All IsComponent (c ∷ cs)
    → split_slash (path_text (c ∷ cs)) ≡ [] ∷ c ∷ cs
unfolding split_slash path_text
split-path_text c cs a = ap (λ (l : List Text). [] ∷ l) (split-path c cs a.0.single a.1)

without_blanks-root : (cs : List Text) → All IsComponent cs → without_blanks ([] ∷ cs) ≡ cs
unfolding without_blanks is_blank same
without_blanks-root cs a = without_blanks-id cs a

parts_of :
    (s : Text) (l : List Text)
    → initial_slashes s ≡ 1
    → split_slash s ≡ l
    → path_parts s ≡ (slash ∷ []) ∷ without_blanks l
unfolding path_parts
parts_of s l h e = rw h (rw e refl)

root_parts : path_parts (slash ∷ []) ≡ (slash ∷ []) ∷ []
unfolding path_parts initial_slashes split_slash without_blanks is_blank same
root_parts = refl

pub parts-canonical_text :
    (cs : List Text) → All IsComponent cs → path_parts (canonical_text cs) ≡ (slash ∷ []) ∷ cs
unfolding canonical_text
parts-canonical_text [] a = root_parts
parts-canonical_text (c ∷ cs) a =
    parts_of (path_text (c ∷ cs)) ([] ∷ c ∷ cs) (initial-path_text c cs a) (split-path_text c cs a)
    ∙ ap (λ (l : List Text). (slash ∷ []) ∷ l) (without_blanks-root (c ∷ cs) a)
