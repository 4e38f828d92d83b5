-- ===== src/Search/Fragments.antt =====
-- What a fragment does to the builder: the values it binds, and the placeholders in its text.
use Prim.Native.String.{String}
use gallery.Base.{
  ℕ, suc, ◌+◌, ◌≤◌, ◌<◌, ◌≡◌, refl, sym, ap, subst, ◌∙◌, ◌⊎◌, inl, inr, Bool, true, false, List, [],
  ◌∷◌, ◌++◌, arith, ltb, if◌then◌else◌, ltb→lt, Bool-cases, length, All, length-append,
}
use gallery.Base.Text.{Text}
use gallery.Search.Values.{Value, text, int, real, in_range}
use mathlib.Core.List.{append-nil, append_assoc}
use gallery.Search.Builder
use gallery.Search.Builder.{
  Builder, Condition, Piece, sql, param, next_param, Fragment, lit, ◌⊕◌, join_each, add,
}

-- The placeholder of the number stands in the condition.
abbrev pub Shows : ℕ → Condition → Type 0
Shows i [] = ⊥
Shows i (sql s ∷ c) = Shows i c
Shows i (param j ∷ c) = (i ≡ j) ⊎ Shows i c

-- A value that SQLite can hold: an integer has 64 bits.
abbrev pub Storable : ℕ × Value → Type 0
Storable p = elim p.1 as (λ _. Type 0) [ text t ↦ Unit | int i ↦ in_range i ≡ true | real x ↦ Unit ]

-- The keys of a list of bindings, from `i` on.
abbrev pub Numbered : ℕ → List (ℕ × Value) → Type 0
Numbered i [] = Unit
Numbered i (p ∷ ps) = (p.0 ≡ i) × Numbered (suc i) ps

-- The text shows exactly the placeholders of the values that were bound for it.
pub record Written (b : Builder) (c : Condition) (b' : Builder) : Type 0 where
  pub values : List (ℕ × Value)
  pub bound : b'.params ≡ b.params ++ values
  pub counted : b'.param_idx ≡ b.param_idx + length values
  pub keyed : Numbered b.param_idx values
  pub storable : All Storable values
  pub kept : b'.conditions ≡ b.conditions
  pub shows : (i : ℕ) → Shows i c → (b.param_idx ≤ i) × (i < b'.param_idx)
  pub shown : (i : ℕ) → b.param_idx ≤ i → i < b'.param_idx → Shows i c

pub record Sound (f : Fragment) : Type 0 where
  pub written : (b : Builder) → Written b (f b).0 (f b).1

pub Shows-append : (i : ℕ) (c d : Condition) → Shows i (c ++ d) → Shows i c ⊎ Shows i d
Shows-append i [] d s = inr s
Shows-append i (sql t ∷ c) d s = Shows-append i c d s
Shows-append i (param j ∷ c) d (inl e) = inl (inl e)
Shows-append i (param j ∷ c) d (inr s) = elim (Shows-append i c d s) [
  | inl p ↦ inl (inr p)
  | inr p ↦ inr p
]

pub Shows-left : (i : ℕ) (c d : Condition) → Shows i c → Shows i (c ++ d)
Shows-left i [] d s = elim s [ ]
Shows-left i (sql t ∷ c) d s = Shows-left i c d s
Shows-left i (param j ∷ c) d (inl e) = inl e
Shows-left i (param j ∷ c) d (inr s) = inr (Shows-left i c d s)

pub Shows-right : (i : ℕ) (c d : Condition) → Shows i d → Shows i (c ++ d)
Shows-right i [] d s = s
Shows-right i (sql t ∷ c) d s = Shows-right i c d s
Shows-right i (param j ∷ c) d s = inr (Shows-right i c d s)

Numbered-append :
    (i : ℕ) (xs ys : List (ℕ × Value))
    → Numbered i xs
    → Numbered (i + length xs) ys
    → Numbered i (xs ++ ys)
Numbered-append i [] ys p q = subst (λ (n : ℕ). Numbered n ys) (omega arith) q
Numbered-append i (x ∷ xs) ys p q =
    (p.0, Numbered-append (suc i) xs ys p.1 (subst (λ (n : ℕ). Numbered n ys) (omega arith) q))

All-append :
    (xs ys : List (ℕ × Value)) → All Storable xs → All Storable ys → All Storable (xs ++ ys)
All-append [] ys p q = q
All-append (x ∷ xs) ys p q = (p.0, All-append xs ys p.1 q)

-- The placeholders of `e` are those of `c` and `d`.
pub record Shares (e c d : Condition) : Type 0 where
  pub parts : (i : ℕ) → Shows i e → Shows i c ⊎ Shows i d
  pub first : (i : ℕ) → Shows i c → Shows i e
  pub second : (i : ℕ) → Shows i d → Shows i e

pub Shares-append : (c d : Condition) → Shares (c ++ d) c d
Shares-append c d = record {
  parts = λ i s. Shows-append i c d s;
  first = λ i s. Shows-left i c d s;
  second = λ i s. Shows-right i c d s;
}

pub Shares-swap : (c d : Condition) → Shares (d ++ c) c d
Shares-swap c d = record {
  parts = λ i s. elim (Shows-append i d c s) [ inl p ↦ inr p | inr p ↦ inl p ];
  first = λ i s. Shows-right i d c s;
  second = λ i s. Shows-left i d c s;
}

-- One text after another that was written before.
pub Written-then :
    (b b' b'' : Builder) (c d e : Condition)
    → Written b c b'
    → Written b' d b''
    → Shares e c d
    → Written b e b''
Written-then b b' b'' c d e v w s = record {
  values = v.values ++ w.values;
  bound =
      w.bound
      ∙ ap (λ (p : List (ℕ × Value)). p ++ w.values) v.bound
      ∙ append_assoc b.params v.values w.values;
  counted = omega (arith, v.counted, w.counted, length-append v.values w.values);
  keyed =
      Numbered-append b.param_idx v.values w.values v.keyed
        (subst (λ (n : ℕ). Numbered n w.values) v.counted w.keyed);
  storable = All-append v.values w.values v.storable w.storable;
  kept = w.kept ∙ v.kept;
  shows = λ i p. elim (s.parts i p) [
    | inl q ↦ omega (arith, v.shows i q, w.counted)
    | inr q ↦ omega (arith, w.shows i q, v.counted)
  ];
  shown = λ i lo hi. elim (Bool-cases (ltb i b'.param_idx)) [
    | inl below ↦ s.first i (v.shown i lo (ltb→lt i b'.param_idx below))
    | inr above ↦ s.second i (w.shown i (ground arith) hi)
  ];
}

empty-Written : (b : Builder) → Written b [] b
empty-Written b = record {
  values = [];
  bound = sym (append-nil b.params);
  counted = omega arith;
  keyed = tt;
  storable = tt;
  kept = refl;
  shows = λ i s. elim s [ ];
  shown = λ i lo hi. absurd (omega (arith, lo, hi));
}

-- Text that is added to a condition, without a placeholder.
pub sql-Written :
    (t : String) (b b' : Builder) (c : Condition) → Written b c b' → Written b (sql t ∷ c) b'
sql-Written t b b' c w = record {
  values = w.values;
  bound = w.bound;
  counted = w.counted;
  keyed = w.keyed;
  storable = w.storable;
  kept = w.kept;
  shows = w.shows;
  shown = w.shown;
}

pub lit-Sound : (t : String) → Sound (lit t)
unfolding lit
lit-Sound t = record { written = λ b. sql-Written t b b [] (empty-Written b) }

pub bound-Sound : (v : Value) → Storable (0, v) → Sound (Builder.bound v)
unfolding Builder.bound next_param
bound-Sound v h = record {
  written = λ b. record {
    values = (b.param_idx, v) ∷ [];
    bound = refl;
    counted = refl;
    keyed = (refl, tt);
    storable = (h, tt);
    kept = refl;
    shows = λ i s. elim s [ inl e ↦ omega (arith, e) | inr x ↦ elim x [ ] ];
    shown = λ i lo hi. inl (omega (arith, lo, hi));
  };
}

pub text-Sound : (t : Text) → Sound (Builder.bound (text t))
text-Sound t = bound-Sound (text t) tt

pub ⊕-Sound : {f g : Fragment} → Sound f → Sound g → Sound (f ⊕ g)
unfolding ◌⊕◌
⊕-Sound {f} {g} s t = record {
  written = λ b.
      Written-then b _ _ (f b).0 (g (f b).1).0 _ (s.written b) (t.written (f b).1)
        (Shares-append _ _);
}

pub if-Sound : {f g : Fragment} (b : Bool) → Sound f → Sound g → Sound (if b then f else g)
if-Sound true s t = s
if-Sound false s t = t

pub join_each-Sound :
    {A : Type 0} (sep : String) (f : A → Fragment)
    → ((x : A) → Sound (f x))
    → (xs : List A) → Sound (join_each sep f xs)
unfolding join_each
join_each-Sound sep f h [] = record { written = λ b. empty-Written b }
join_each-Sound sep f h (x ∷ []) = record { written = λ b. (h x).written b }
join_each-Sound sep f h (x ∷ y ∷ xs) = record {
  written =
      λ b. (⊕-Sound (h x) (⊕-Sound (lit-Sound sep) (join_each-Sound sep f h (y ∷ xs)))).written b;
}

pub ruleset sound = (⊕-Sound, lit-Sound, text-Sound)
