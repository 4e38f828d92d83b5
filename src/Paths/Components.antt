-- ===== src/Paths/Components.antt =====
-- The components of a normal absolute path, and the text that they make.
use mathlib.Core.List.{append-nil}
use gallery.Base.{
  ℕ, ◌≡◌, refl, sym, ap, inl, inr, Bool, true, false, not, ◌&&◌, List, [], ◌∷◌, ◌++◌, arith, ◌==◌,
  Bool-cases, All,
}
use gallery.Base.Text.{Text, same}
use gallery.Paths.Normal.{
  slash, cons_head, split_slash, join_slash, is_blank, is_up, up, normal_step, backwards,
  normal_components,
}
use gallery.Paths.Containment.{ends_slash}

unfoldable pub no_slash : Text → Bool
no_slash [] = true
no_slash (c ∷ s) = not (c == slash) && no_slash s

-- A component that normpath keeps.
pub record IsComponent (c : Text) : Type 0 where
  pub named : is_blank c ≡ false
  pub down : is_up c ≡ false
  pub single : no_slash c ≡ true

abbrev pub Single : Text → Type 0
Single c = no_slash c ≡ true

split_slash-Single : (s : Text) → All Single (split_slash s)
unfolding split_slash no_slash
split_slash-Single [] = (refl, tt)
split_slash-Single (c ∷ s) = elim (Bool-cases (c == slash)) [
  | inl e ↦ rw e (refl, split_slash-Single s)
  | inr e ↦ rw e (cons_head-Single c (split_slash s) e (split_slash-Single s))
]
  where
    cons_head-Single :
        (c : ℕ) (xs : List Text)
        → (c == slash) ≡ false
        → All Single xs
        → All Single (cons_head c xs)
    cons_head-Single c [] e a = (rw e refl, tt)
    cons_head-Single c (x ∷ xs) e a = (rw e a.0, a.1)

backwards-All :
    (P : Text → Type 0) (xs acc : List Text) → All P xs → All P acc → All P (backwards xs acc)
backwards-All P [] acc a b = b
backwards-All P (x ∷ xs) acc a b = backwards-All P xs (x ∷ acc) a.1 (a.0, b)

-- Below the root a component `..` leads nowhere.
up-All : (stack : List Text) → All IsComponent stack → All IsComponent (up true stack)
unfolding up
up-All [] a = tt
up-All (x ∷ xs) a = rw (a.0.down) (a.1)

normal_step-All :
    (stack : List Text) (comp : Text)
    → All IsComponent stack
    → Single comp
    → All IsComponent (normal_step true stack comp)
unfolding normal_step
normal_step-All stack comp a s = elim (Bool-cases (is_blank comp)) [
  | inl e ↦ rw e a
  | inr e ↦ elim (Bool-cases (is_up comp)) [
    | inl f ↦ rw (e, f) (up-All stack a)
    | inr f ↦ rw (e, f) (record { named = e; down = f; single = s }, a)
  ]
]

normal_components-All :
    (stack comps : List Text)
    → All IsComponent stack
    → All Single comps
    → All IsComponent (normal_components true stack comps)
unfolding normal_components
normal_components-All stack [] a s = backwards-All IsComponent stack [] a tt
normal_components-All stack (c ∷ cs) a s =
    normal_components-All (normal_step true stack c) cs (normal_step-All stack c a s.0) s.1

pub components_of_split : (s : Text) → All IsComponent (normal_components true [] (split_slash s))
components_of_split s = normal_components-All [] (split_slash s) tt (split_slash-Single s)

-- A slash before each component.
unfoldable pub path_text : List Text → Text
path_text [] = []
path_text (c ∷ cs) = slash ∷ (c ++ path_text cs)

pub join-path_text : (c : Text) (cs : List Text) → slash ∷ join_slash (c ∷ cs) ≡ path_text (c ∷ cs)
unfolding join_slash path_text
join-path_text c [] = ap (λ (s : Text). slash ∷ s) (sym (append-nil c))
join-path_text c (d ∷ cs) = ap (λ (s : Text). slash ∷ (c ++ s)) (join-path_text d cs)

pub empty-component : IsComponent [] → ⊥
unfolding is_blank same
empty-component h = cc (h.named)

pub ends_path :
    (x : ℕ) (d : ℕ) (c : Text) (cs : List Text)
    → no_slash (d ∷ c) ≡ true
    → All IsComponent cs
    → ends_slash (x ∷ ((d ∷ c) ++ path_text cs)) ≡ false
unfolding ends_slash no_slash path_text
ends_path x d [] [] n a = ground arith
ends_path x d [] ([] ∷ cs) n a = absurd (empty-component a.0)
ends_path x d [] ((e ∷ c) ∷ cs) n a = ends_path slash e c cs a.0.single a.1
ends_path x d (e ∷ c) cs n a = ends_path d e c cs (ground arith) a

pub split-path :
    (c : Text) (cs : List Text)
    → no_slash c ≡ true
    → All IsComponent cs
    → split_slash (c ++ path_text cs) ≡ c ∷ cs
unfolding split_slash no_slash path_text
split-path [] [] n a = refl
split-path [] (e ∷ cs) n a = ap (λ (l : List Text). [] ∷ l) (split-path e cs a.0.single a.1)
split-path (d ∷ c) cs n a = elim (Bool-cases (d == slash)) [
  | inl e ↦ absurd (cc (rw e at n))
  | inr e ↦ rw e (ap (λ (l : List Text). cons_head d l) (split-path c cs (rw e at n) a))
]
