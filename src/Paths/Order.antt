-- ===== src/Paths/Order.antt =====
-- Containments of absolute paths, catalog_path_contains of backend/metadata_store/path_utils.py, compared.
use gallery.Base.{
  ◌≡◌, refl, sym, ◌∙◌, ◌⊎◌, inl, inr, Bool, true, false, ◌||◌, List, [], ◌∷◌, arith, Bool-cases,
  All,
}
use gallery.Base.Text.{Text, same, same→eq, same_iff}
use gallery.Paths.Normal.{initial_slashes}
use gallery.Paths.Containment.{canonicalize_catalog_path, catalog_path_contains}
use gallery.Paths.Components.{IsComponent}
use gallery.Paths.Canonical.{canonical_text, canonical_form}
use gallery.Paths.Prefix.{below}
use gallery.Paths.ScopeSql.{contains-canonical}

below_trans : (ps qs rs : List Text) → below ps qs ≡ true → below qs rs ≡ true → below ps rs ≡ true
unfolding below
below_trans [] [] rs h k = absurd (cc h)
below_trans [] (q ∷ qs) [] h k = absurd (cc k)
below_trans [] (q ∷ qs) (r ∷ rs) h k = refl
below_trans (p ∷ ps) [] rs h k = absurd (cc h)
below_trans (p ∷ ps) (q ∷ qs) [] h k = absurd (cc k)
below_trans (p ∷ ps) (q ∷ qs) (r ∷ rs) h k =
    ground (arith, below_trans ps qs rs, same_iff q p, same_iff r q, same_iff r p)

below_irrefl : (ps qs : List Text) → below ps qs ≡ true → below qs ps ≡ false
unfolding below
below_irrefl [] [] h = absurd (cc h)
below_irrefl [] (q ∷ qs) h = refl
below_irrefl (p ∷ ps) [] h = absurd (cc h)
below_irrefl (p ∷ ps) (q ∷ qs) h = ground (arith, below_irrefl ps qs)

-- Containment looks at the canonical forms only.
contains-of_canonical :
    (nfc : Text → Text) (p p' q q' : Text)
    → canonicalize_catalog_path nfc p ≡ canonicalize_catalog_path nfc p'
    → canonicalize_catalog_path nfc q ≡ canonicalize_catalog_path nfc q'
    → catalog_path_contains nfc p q ≡ catalog_path_contains nfc p' q'
unfolding catalog_path_contains
contains-of_canonical nfc p p' q q' e f = rw (e, f) refl

-- The root itself, or components below those of the root.
inside :
    (nfc : Text → Text) (p q : Text) (ps qs : List Text)
    → All IsComponent ps
    → All IsComponent qs
    → canonicalize_catalog_path nfc p ≡ canonical_text ps
    → canonicalize_catalog_path nfc q ≡ canonical_text qs
    → catalog_path_contains nfc p q ≡ true
    → (canonicalize_catalog_path nfc p ≡ canonicalize_catalog_path nfc q) ⊎ (below ps qs ≡ true)
inside nfc p q ps qs a b e f h =
    let shown : (same (canonical_text qs) (canonical_text ps) || below ps qs) ≡ true =
      sym (contains-canonical nfc p q ps qs a b e f) ∙ h in
    elim (Bool-cases (same (canonical_text qs) (canonical_text ps))) [
      | inl s ↦ inl (e ∙ sym (same→eq _ _ s) ∙ sym f)
      | inr s ↦ inr (rw s at shown)
    ]

or_right : (b c : Bool) → c ≡ true → (b || c) ≡ true
or_right true c h = refl
or_right false c h = h

module _ (nfc : Text → Text) (p q : Text) (hp : initial_slashes (nfc p) ≡ 1)
    (hq : initial_slashes (nfc q) ≡ 1) where
  -- Of absolute paths, a path contains what a path inside it contains.
  pub contains_trans :
      (r : Text)
      → initial_slashes (nfc r) ≡ 1
      → catalog_path_contains nfc p q ≡ true
      → catalog_path_contains nfc q r ≡ true
      → catalog_path_contains nfc p r ≡ true
  contains_trans r hr h k =
      let ps = canonical_form nfc p hp in
      let qs = canonical_form nfc q hq in
      let rs = canonical_form nfc r hr in
      elim (inside nfc p q ps.0 qs.0 ps.1 qs.1 ps.2 qs.2 h) [
        | inl e ↦ contains-of_canonical nfc p q r r e refl ∙ k
        | inr b ↦ elim (inside nfc q r qs.0 rs.0 qs.1 rs.1 qs.2 rs.2 k) [
          | inl e ↦ contains-of_canonical nfc p p r q refl (sym e) ∙ h
          | inr c ↦
              contains-canonical nfc p r ps.0 rs.0 ps.1 rs.1 ps.2 rs.2
              ∙ or_right _ _ (below_trans ps.0 qs.0 rs.0 b c)
        ]
      ]

  -- Two absolute paths that contain each other have one canonical form.
  pub contains_antisymm :
      catalog_path_contains nfc p q ≡ true
      → catalog_path_contains nfc q p ≡ true
      → canonicalize_catalog_path nfc p ≡ canonicalize_catalog_path nfc q
  contains_antisymm h k =
      let ps = canonical_form nfc p hp in
      let qs = canonical_form nfc q hq in
      elim (inside nfc p q ps.0 qs.0 ps.1 qs.1 ps.2 qs.2 h) [
        | inl e ↦ e
        | inr b ↦ elim (inside nfc q p qs.0 ps.0 qs.1 ps.1 qs.2 ps.2 k) [
          | inl e ↦ sym e
          | inr c ↦ absurd (cc (c, below_irrefl ps.0 qs.0 b))
        ]
      ]
