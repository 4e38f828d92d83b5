-- ===== src/Scope/Picks.antt =====
-- What the searches over libraries and roots pick.
use gallery.Base.{
  ℕ, ◌≤◌, ◌≡◌, refl, sym, ap, subst, ◌∙◌, ◌⊎◌, inl, inr, Bool, true, false, Option, none, some,
  List, [], ◌∷◌, ◌++◌, map, arith, ltb, ◌==◌, if◌then◌else◌, ==_iff, Bool-cases, some-injective,
  Has,
}
use gallery.Base.Text.{Text, same, same→eq, same_refl}
use gallery.Paths.Containment.{canonicalize_catalog_path, catalog_path_contains}
use gallery.Scope.World.{
  ImportPath, Library, World, Failure, Result, ok, err, ◌>>=◌, Done, guard, found,
}
use gallery.Scope.Resolve.{
  find_library, import_paths, find_import_id, find_import, depth, longest, owning, owners, deepest,
  owner_of,
}

pub >>=-ok :
    {A B : Type 0} (m : Result A) (f : A → Result B) (b : B)
    → (m >>= f) ≡ ok b
    → (a : A) × (m ≡ ok a) × (f a ≡ ok b)
>>=-ok (ok a) f b h = (a, refl, h)
>>=-ok (err e) f b h = absurd (cc h)

pub ok-injective : {A : Type 0} (a b : A) → ok a ≡ ok b → a ≡ b
ok-injective {A = A} a b h = ap (λ (r : Result A). elim r [ ok c ↦ c | err e ↦ a ]) h

pub found-ok : {A : Type 0} (o : Option A) (e : Failure) (a : A) → found o e ≡ ok a → o ≡ some a
found-ok none e a h = absurd (cc h)
found-ok (some b) e a h = ap some (ok-injective b a h)

pub guard-ok : (b : Bool) (e : Failure) (d : Done) → guard b e ≡ ok d → b ≡ true
guard-ok true e d h = refl
guard-ok false e d h = absurd (cc h)

pub find_library-Has :
    (i : ℕ) (xs : List Library) (x : Library) → find_library i xs ≡ some x → Has x xs × (x.id ≡ i)
unfolding find_library
find_library-Has i [] x h = absurd (cc h)
find_library-Has i (y ∷ xs) x h = elim (Bool-cases (y.id == i)) [
  | inl e ↦
      let hit : y ≡ x = some-injective y x (rw e at h) in
      (inl (sym hit), ap (λ (z : Library). z.id) (sym hit) ∙ (==_iff y.id i).0 e)
  | inr e ↦ let rest = find_library-Has i xs x (rw e at h) in (inr rest.0, rest.1)
]

pub find_import-Has :
    (i : ℕ) (ps : List ImportPath) (p : ImportPath)
    → find_import i ps ≡ some p
    → Has p ps × (p.id ≡ i)
unfolding find_import
find_import-Has i [] p h = absurd (cc h)
find_import-Has i (q ∷ ps) p h = elim (Bool-cases (q.id == i)) [
  | inl e ↦
      let hit : q ≡ p = some-injective q p (rw e at h) in
      (inl (sym hit), ap (λ (z : ImportPath). z.id) (sym hit) ∙ (==_iff q.id i).0 e)
  | inr e ↦ let rest = find_import-Has i ps p (rw e at h) in (inr rest.0, rest.1)
]

pub find_import_id-Has :
    (w : World) (root : Text) (ps : List ImportPath) (k : ℕ)
    → find_import_id w root ps ≡ some k
    → (p : ImportPath) × Has p ps × (canonicalize_catalog_path w.nfc p.path ≡ root) × (p.id ≡ k)
unfolding find_import_id
find_import_id-Has w root [] k h = absurd (cc h)
find_import_id-Has w root (q ∷ ps) k h =
    elim (Bool-cases (same (canonicalize_catalog_path w.nfc q.path) root)) [
      | inl e ↦ (q, inl refl, same→eq _ _ e, some-injective q.id k (rw e at h))
      | inr e ↦
          let rest = find_import_id-Has w root ps k (rw e at h) in
          (rest.0, inr rest.1, rest.2, rest.3)
    ]

-- A root of the list is found again.
pub find_import_id-total :
    (w : World) (root : Text) (ps : List ImportPath)
    → Has root (import_paths w ps)
    → (k : ℕ) × (find_import_id w root ps ≡ some k)
unfolding find_import_id import_paths
find_import_id-total w root [] h = elim h [ ]
find_import_id-total w root (q ∷ ps) h =
    elim (Bool-cases (same (canonicalize_catalog_path w.nfc q.path) root)) [
      | inl e ↦ (q.id, rw e refl)
      | inr e ↦ elim h [
        | inl hit ↦ absurd (cc (e, same_refl root, ap (λ (s : Text). same s root) hit))
        | inr m ↦ let rest = find_import_id-total w root ps m in (rest.0, rw e rest.1)
      ]
    ]

pub owning-Has :
    (w : World) (path : Text) (rs : List Text) (r : Text)
    → Has r (owning w path rs)
    → Has r rs × (catalog_path_contains w.nfc r path ≡ true)
unfolding owning
owning-Has w path [] r h = elim h [ ]
owning-Has w path (q ∷ rs) r h = elim (Bool-cases (catalog_path_contains w.nfc q path)) [
  | inl e ↦ elim (the_first e h) [
    | inl hit ↦ (inl hit, ap (λ (s : Text). catalog_path_contains w.nfc s path) hit ∙ e)
    | inr m ↦ let rest = owning-Has w path rs r m in (inr rest.0, rest.1)
  ]
  | inr e ↦ let rest = owning-Has w path rs r (rw e at h) in (inr rest.0, rest.1)
]
  where
    the_first :
        catalog_path_contains w.nfc q path ≡ true
        → Has r
            (if catalog_path_contains w.nfc q path then q ∷ owning w path rs else owning w path rs)
        → (r ≡ q) ⊎ Has r (owning w path rs)
    the_first e k = rw e at k

pub owning-keeps :
    (w : World) (path : Text) (rs : List Text) (r : Text)
    → Has r rs
    → catalog_path_contains w.nfc r path ≡ true
    → Has r (owning w path rs)
unfolding owning
owning-keeps w path [] r h c = elim h [ ]
owning-keeps w path (q ∷ rs) r (inl e) c =
    rw (sym (ap (λ (s : Text). catalog_path_contains w.nfc s path) e) ∙ c) (inl e)
owning-keeps w path (q ∷ rs) r (inr m) c = elim (Bool-cases (catalog_path_contains w.nfc q path)) [
  | inl e ↦ rw e (inr (owning-keeps w path rs r m c))
  | inr e ↦ rw e (owning-keeps w path rs r m c)
]

longer_of :
    (best r : Text) (rs : List Text) (c : Bool)
    → Has (longest r rs) (r ∷ rs)
    → Has (longest best rs) (best ∷ rs)
    → Has (longest (if c then r else best) rs) (best ∷ r ∷ rs)
longer_of best r rs true h k = inr h
longer_of best r rs false h (inl e) = inl e
longer_of best r rs false h (inr m) = inr (inr m)

-- The longest root is one of them, and none is longer.
pub longest-Has : (best : Text) (rs : List Text) → Has (longest best rs) (best ∷ rs)
unfolding longest
longest-Has best [] = inl refl
longest-Has best (r ∷ rs) =
    longer_of best r rs (ltb (depth best) (depth r)) (longest-Has r rs) (longest-Has best rs)

pub longest-le : (best : Text) (rs : List Text) → depth best ≤ depth (longest best rs)
unfolding longest
longest-le best [] = omega arith
longest-le best (r ∷ rs) = ground (arith, longest-le best rs, longest-le r rs)

depth-longer : (best r : Text) → depth r ≤ depth (if ltb (depth best) (depth r) then r else best)
depth-longer best r = ground arith

pub longest-max :
    (best : Text) (rs : List Text) (r : Text)
    → Has r (best ∷ rs)
    → depth r ≤ depth (longest best rs)
unfolding longest
longest-max best rs r (inl e) = omega (arith, ap (λ (s : Text). depth s) e, longest-le best rs)
longest-max best [] r (inr m) = elim m [ ]
longest-max best (q ∷ rs) r (inr (inl e)) = omega (
  arith,
  ap (λ (s : Text). depth s) e,
  depth-longer best q,
  longest-le (if ltb (depth best) (depth q) then q else best) rs,
)
longest-max best (q ∷ rs) r (inr (inr m)) =
    longest-max (if ltb (depth best) (depth q) then q else best) rs r (inr m)

Has-append : {A : Type 0} (x : A) (xs ys : List A) → Has x (xs ++ ys) → Has x xs ⊎ Has x ys
Has-append x [] ys h = inr h
Has-append x (z ∷ xs) ys (inl e) = inl (inl e)
Has-append x (z ∷ xs) ys (inr m) = elim (Has-append x xs ys m) [
  | inl p ↦ inl (inr p)
  | inr p ↦ inr p
]

pairs-Has :
    (y : Library) (x : Library × Text) (rs : List Text)
    → Has x (map (λ (r : Text). (y, r)) rs)
    → x.0 ≡ y
pairs-Has y x [] h = elim h [ ]
pairs-Has y x (r ∷ rs) (inl e) = ap (λ (p : Library × Text). p.0) e
pairs-Has y x (r ∷ rs) (inr m) = pairs-Has y x rs m

-- One of the candidates.
abbrev Among : Library → List (Library × Text) → Type 0
Among l rs = (x : Library × Text) × Has x rs × (l ≡ x.0)

deeper :
    (best r : Library × Text) (rs : List (Library × Text)) (c : Bool)
    → Among (deepest r rs) (r ∷ rs)
    → Among (deepest best rs) (best ∷ rs)
    → Among (deepest (if c then r else best) rs) (best ∷ r ∷ rs)
deeper best r rs true (x, m, e) k = (x, inr m, e)
deeper best r rs false h (x, inl m, e) = (x, inl m, e)
deeper best r rs false h (x, inr m, e) = (x, inr (inr m), e)

module _ (w : World) (path : Text) where
  owners-Has : (xs : List Library) (x : Library × Text) → Has x (owners w path xs) → Has x.0 xs
  unfolding owners
  owners-Has [] x h = elim h [ ]
  owners-Has (y ∷ ys) x h =
      elim (Has-append x
        (map (λ (r : Text). (y, r)) (owning w path (import_paths w y.import_paths)))
        (owners w path ys) h) [ inl a ↦ inl (pairs-Has y x _ a) | inr b ↦ inr (owners-Has ys x b) ]

  deepest-Has :
      (best : Library × Text) (rs : List (Library × Text))
      → (x : Library × Text) × Has x (best ∷ rs) × (deepest best rs ≡ x.0)
  unfolding deepest
  deepest-Has best [] = (best, inl refl, refl)
  deepest-Has best (r ∷ rs) =
      deeper best r rs (ltb (depth best.1) (depth r.1)) (deepest-Has r rs) (deepest-Has best rs)

  pub owner_of-Has : (x : Library) → owner_of w path ≡ some x → Has x w.libraries
  unfolding owner_of
  owner_of-Has x h = go (owners w path w.libraries) (λ y m. owners-Has w.libraries y m) h
    where
      go :
          (cs : List (Library × Text))
          → ((y : Library × Text) → Has y cs → Has y.0 w.libraries)
          → (elim cs [ [] ↦ none | c ∷ rest ↦ some (deepest c rest) ]) ≡ some x
          → Has x w.libraries
      go [] f k = absurd (cc k)
      go (c ∷ rest) f k =
          let d = deepest-Has c rest in
          subst (λ (l : Library). Has l w.libraries) (sym d.2 ∙ some-injective _ _ k) (f d.0 d.1)
