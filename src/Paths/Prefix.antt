-- ===== src/Paths/Prefix.antt =====
-- A text prefix that ends in a slash against a prefix of components.
use mathlib.Core.List.{append_assoc}
use gallery.Base.{
  ℕ, ◌≡◌, refl, sym, ap, ◌∙◌, Bool, true, false, ◌&&◌, List, [], ◌∷◌, ◌++◌, arith, ltb, ◌==◌,
  length, All, take,
}
use gallery.Base.Text.{Text, same}
use gallery.Paths.Normal.{slash}
use gallery.Paths.Containment.{same_parts, parts_below}
use gallery.Paths.Components.{no_slash, IsComponent, path_text}

-- The text begins with the prefix.
unfoldable pub starts : Text → Text → Bool
starts [] s = true
starts (c ∷ p) [] = false
starts (c ∷ p) (d ∷ s) = (c == d) && starts p s

-- What substr compares.
pub take-starts : (p s : Text) → same (take (length p) s) p ≡ starts p s
unfolding starts same
take-starts [] s = refl
take-starts (c ∷ p) [] = refl
take-starts (c ∷ p) (d ∷ s) = ground (arith, take-starts p s)

pub starts→append : (p s : Text) → starts p s ≡ true → (r : Text) × (s ≡ p ++ r)
unfolding starts
starts→append [] s h = (s, refl)
starts→append (c ∷ p) [] h = absurd (cc h)
starts→append (c ∷ p) (d ∷ s) h =
    let rest = starts→append p s (ground (arith, h)) in
    (
      rest.0,
      ap (λ (x : Text). d ∷ x) rest.1 ∙ ap (λ (n : ℕ). n ∷ (p ++ rest.0)) (ground (arith, h)),
    )

-- The components begin with those of the root, and go on.
unfoldable pub below : List Text → List Text → Bool
below [] [] = false
below [] (c ∷ cs) = true
below (r ∷ rs) [] = false
below (r ∷ rs) (c ∷ cs) = same c r && below rs cs

same_sym : (s t : Text) → same s t ≡ same t s
unfolding same
same_sym [] [] = refl
same_sym [] (d ∷ t) = refl
same_sym (c ∷ s) [] = refl
same_sym (c ∷ s) (d ∷ t) = ground (arith, same_sym s t)

-- One component against another, each up to the next slash or the end.
starts_component :
    (r c : Text) (x : Text) (cs : List Text)
    → no_slash r ≡ true
    → no_slash c ≡ true
    → starts (r ++ slash ∷ x) (c ++ path_text cs) ≡ (same r c && starts (slash ∷ x) (path_text cs))
unfolding starts no_slash same path_text
starts_component [] [] x cs n m = refl
starts_component [] (d ∷ c) x cs n m = ground arith
starts_component (e ∷ r) [] x [] n m = refl
starts_component (e ∷ r) [] x (k ∷ cs) n m = ground arith
starts_component (e ∷ r) (d ∷ c) x cs n m =
    ground (arith, starts_component r c x cs (ground arith) (ground arith))

-- The text of a prefix goes on with a slash.
slash_form : (rs : List Text) → (x : Text) × (path_text rs ++ slash ∷ [] ≡ slash ∷ x)
unfolding path_text
slash_form [] = ([], refl)
slash_form (r ∷ rs) = ((r ++ path_text rs) ++ slash ∷ [], refl)

pub starts-path_text :
    (rs cs : List Text)
    → All IsComponent rs
    → All IsComponent cs
    → starts (path_text rs ++ slash ∷ []) (path_text cs) ≡ below rs cs
unfolding path_text below starts
starts-path_text [] [] a b = refl
starts-path_text [] (c ∷ cs) a b = refl
starts-path_text (r ∷ rs) [] a b = refl
starts-path_text (r ∷ rs) (c ∷ cs) a b =
    let form = slash_form rs in
    ap (λ (x : Text). starts x (c ++ path_text cs))
      (append_assoc r (path_text rs) (slash ∷ []) ∙ ap (λ (x : Text). r ++ x) form.1)
    ∙ starts_component r c form.0 cs a.0.single b.0.single
    ∙ ap (λ (x : Text). same r c && starts x (path_text cs)) (sym form.1)
    ∙ ap (λ (x : Bool). same r c && x) (starts-path_text rs cs a.1 b.1)
    ∙ ap (λ (x : Bool). x && below rs cs) (same_sym r c)

-- Parts that are compared up to the length of the root's.
same_parts-below :
    (rs cs : List Text)
    → (ltb (length rs) (length cs) && same_parts (take (length rs) cs) rs) ≡ below rs cs
unfolding same_parts below
same_parts-below [] [] = refl
same_parts-below [] (c ∷ cs) = ground arith
same_parts-below (r ∷ rs) [] = ground arith
same_parts-below (r ∷ rs) (c ∷ cs) = ground (arith, same_parts-below rs cs)

pub parts_below_lem :
    (rs cs : List Text) → parts_below ((slash ∷ []) ∷ rs) ((slash ∷ []) ∷ cs) ≡ below rs cs
unfolding parts_below same_parts same
parts_below_lem rs cs = ground (arith, same_parts-below rs cs)
