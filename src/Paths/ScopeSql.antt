-- ===== src/Paths/ScopeSql.antt =====
-- The SQL scope of a root against catalog_path_contains.
use gallery.Base.{
  ◌≡◌, refl, sym, ap, ◌∙◌, inl, inr, Bool, true, false, ◌&&◌, ◌||◌, List, [], ◌∷◌, ◌++◌, Bool-cases,
  length, All, take,
}
use gallery.Base.Text.{Text, same}
use gallery.Search.Values.{escape_like_literal}
use gallery.Search.Like.{LikeOperator, like_prefix}
use gallery.Paths.Normal.{slash, initial_slashes}
use gallery.Paths.Containment.{
  canonicalize_catalog_path, catalog_path_contains, like_escape, ends_slash, scope_prefix,
  path_scope_sql, in_scope,
}
use gallery.Paths.Components.{IsComponent, path_text, empty-component}
use gallery.Paths.Canonical.{canonical_text, canonical_form, parts-canonical_text, ends-path_text}
use gallery.Paths.Prefix.{
  starts, take-starts, starts→append, below, starts-path_text, parts_below_lem,
}

like_escape-eq : (s : Text) → like_escape s ≡ escape_like_literal s
unfolding like_escape escape_like_literal
like_escape-eq s = refl

-- The LIKE of the scope adds nothing to the comparison of the prefix.
like_and_prefix :
    (l : LikeOperator) (p s : Text)
    → (l.like (like_escape p ++ b'%' ∷ []) s && same (take (length p) s) p) ≡ starts p s
like_and_prefix l p s = elim (Bool-cases (starts p s)) [
  | inr e ↦ rw (take-starts p s, e) (and_false (l.like (like_escape p ++ b'%' ∷ []) s))
  | inl e ↦
      let whole = starts→append p s e in
      let matched : l.like (like_escape p ++ b'%' ∷ []) s ≡ true =
        ap (λ (x : Text). l.like (like_escape p ++ b'%' ∷ []) x) whole.1
        ∙ ap (λ (x : Text). l.like (x ++ b'%' ∷ []) (p ++ whole.0)) (like_escape-eq p)
        ∙ like_prefix l p whole.0 in
      rw (take-starts p s, e, matched) refl
]
  where
    and_false : (b : Bool) → (b && false) ≡ false
    and_false true = refl
    and_false false = refl

scope_prefix-canonical :
    (rs : List Text)
    → All IsComponent rs
    → scope_prefix (canonical_text rs) ≡ path_text rs ++ slash ∷ []
unfolding scope_prefix canonical_text ends_slash path_text
scope_prefix-canonical [] a = refl
scope_prefix-canonical (r ∷ rs) a = rw (ends-path_text r rs a) refl

-- The prefix at the canonical text of a path, and the components below the root's.
root_or_below :
    (rs cs : List Text)
    → All IsComponent rs
    → All IsComponent cs
    → (same (canonical_text cs) (canonical_text rs)
        || starts (path_text rs ++ slash ∷ []) (canonical_text cs))
      ≡ (same (canonical_text cs) (canonical_text rs) || below rs cs)
unfolding canonical_text below path_text starts same
root_or_below [] [] a b = refl
root_or_below ([] ∷ rs) [] a b = absurd (empty-component a.0)
root_or_below ((d ∷ r) ∷ rs) [] a b = refl
root_or_below rs (c ∷ cs) a b =
    ap (λ (x : Bool). same (path_text (c ∷ cs)) (canonical_text rs) || x)
      (starts-path_text rs (c ∷ cs) a b)

in_scope-canonical :
    (l : LikeOperator) (nfc : Text → Text) (p : Text) (rs cs : List Text)
    → All IsComponent rs
    → All IsComponent cs
    → canonicalize_catalog_path nfc p ≡ canonical_text rs
    → in_scope l (path_scope_sql nfc p) (canonical_text cs)
      ≡ (same (canonical_text cs) (canonical_text rs) || below rs cs)
unfolding in_scope path_scope_sql
in_scope-canonical l nfc p rs cs a b e =
    ap
      (λ (x : Text).
        same (canonical_text cs) x
        || (l.like (like_escape (scope_prefix x) ++ b'%' ∷ []) (canonical_text cs)
            && same (take (length (scope_prefix x)) (canonical_text cs)) (scope_prefix x)))
      e
    ∙ ap (λ (x : Bool). same (canonical_text cs) (canonical_text rs) || x)
        (like_and_prefix l (scope_prefix (canonical_text rs)) (canonical_text cs))
    ∙ ap
        (λ (x : Text). same (canonical_text cs) (canonical_text rs) || starts x (canonical_text cs))
        (scope_prefix-canonical rs a)
    ∙ root_or_below rs cs a b

pub contains-canonical :
    (nfc : Text → Text) (p q : Text) (rs cs : List Text)
    → All IsComponent rs
    → All IsComponent cs
    → canonicalize_catalog_path nfc p ≡ canonical_text rs
    → canonicalize_catalog_path nfc q ≡ canonical_text cs
    → catalog_path_contains nfc p q ≡ (same (canonical_text cs) (canonical_text rs) || below rs cs)
unfolding catalog_path_contains
contains-canonical nfc p q rs cs a b e f =
    rw (e, f, parts-canonical_text rs a, parts-canonical_text cs b, parts_below_lem rs cs) refl

-- For absolute paths, whose text after NFC begins with one slash or at least three, path_scope_sql
-- selects a catalog path exactly if catalog_path_contains says that the root contains it: the wildcards
-- of the root's own text match nothing else, and no sibling whose name begins like the root's is taken.
pub in_scope-contains :
    (l : LikeOperator) (nfc : Text → Text) (root path : Text)
    → initial_slashes (nfc root) ≡ 1
    → initial_slashes (nfc path) ≡ 1
    → in_scope l (path_scope_sql nfc root) (canonicalize_catalog_path nfc path)
      ≡ catalog_path_contains nfc root path
in_scope-contains l nfc root path h k =
    let rs = canonical_form nfc root h in
    let cs = canonical_form nfc path k in
    ap (λ (x : Text). in_scope l (path_scope_sql nfc root) x) cs.2
    ∙ in_scope-canonical l nfc root rs.0 cs.0 rs.1 cs.1 rs.2
    ∙ sym (contains-canonical nfc root path rs.0 cs.0 rs.1 cs.1 rs.2 cs.2)
