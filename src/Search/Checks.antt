-- ===== src/Search/Checks.antt =====
-- The handlers that may refuse a value, and the handler of model names.
use Prim.Native.String.{String}
use gallery.Base.{
  ℕ, ◌≡◌, subst, inl, inr, Bool, true, false, Option, none, some, [], ◌∷◌, ◌++◌, if◌then◌else◌,
  Bool-cases, Option-cases, some-injective,
}
use gallery.Base.Text.{Text}
use gallery.Base.Int.{ℤ}
use gallery.Search.Chars.{Unicode, strip, has_char}
use gallery.Search.Parse.{FieldToken, Operator}
use gallery.Search.Values.{
  Value, text, int, real, Python, one_of, in_range, to_int, numeric_value, as_integer,
  numeric_field_value, no_option, integer_fields,
}
use gallery.Search.Builder
use gallery.Search.Builder.{
  Builder, Condition, Piece, sql, param, next_param, Fragment, lit, ◌⊕◌, join_each,
}
use gallery.Search.Handlers.{
  Checked, accepted, invalid, handle_size, size_match, size_of, size_condition,
}
use gallery.Search.Standard.{
  trigram_rowids, date_condition, number_condition, is_date, column_of, compare_column,
  handle_standard_field, model_value, handle_model, direct_model, by_rowids, by_name,
}
use gallery.Search.Build.{handle_field}
use gallery.Search.Fragments.{
  Sound, Storable, Shares, Shares-append, Written-then, Shows-append, Shows-left, Shows-right,
  sound, ⊕-Sound, lit-Sound, bound-Sound, text-Sound, join_each-Sound,
}
use gallery.Search.Bound.{
  handle_raw-Sound, handle_json_field-Sound, handle_model_or_hash-Sound, handle_resource_hash-Sound,
  handle_lora-Sound, handle_path-Sound, text_condition-Sound, other_condition-Sound,
  trigram_rowids-Sound,
}

-- What is accepted is sound.
abbrev pub Passes : Checked → Type 0
Passes (accepted f) = Sound f
Passes (invalid e) = Unit

compare-Sound :
    (col start close : String) (op : Operator) (v : Value)
    → Storable (0, v)
    → Sound (compare_column col start op v close)
compare-Sound col start close op v h = ⊕-Sound (lit-Sound _) (
    ⊕-Sound (lit-Sound _) (
      ⊕-Sound (lit-Sound _) (
        ⊕-Sound (lit-Sound _) (
          ⊕-Sound (lit-Sound _) (
            ⊕-Sound (lit-Sound _)
              (⊕-Sound (lit-Sound _) (⊕-Sound (lit-Sound _) (bound-Sound v h))))))))

date_condition-Passes : (u : Unicode) (ft : FieldToken) → Passes (date_condition u ft)
unfolding date_condition
date_condition-Passes u ft = elim (Bool-cases (is_date u (strip u ft.value))) [
  | inl e ↦ rw e (
      compare-Sound (column_of ft.field) "substr(m." ", 1, 10) " ft.operator
        (text (strip u ft.value)) tt)
  | inr e ↦ rw e tt
]

-- A number that is accepted fits SQLite's 64 bits.
numeric_value-Storable :
    (u : Unicode) (py : Python) (s : Text) (v : Value)
    → numeric_value u py s ≡ some v
    → Storable (0, v)
unfolding numeric_value
numeric_value-Storable u py s v h = elim (Option-cases (to_int u py s)) [
  | inr (i, e) ↦ elim (Bool-cases (in_range i)) [
    | inl r ↦
        subst (λ (w : Value). Storable (0, w)) (some-injective _ _ (rw (e, r, numeric_value) at h))
          r
    | inr r ↦ absurd (cc (rw (e, r, numeric_value) at h))
  ]
  | inl e ↦ elim (Option-cases (py.to_float s)) [
    | inl f ↦ absurd (cc (rw (e, f, numeric_value) at h))
    | inr (x, f) ↦ elim (Bool-cases (py.is_finite x)) [
      | inl r ↦
          subst (λ (w : Value). Storable (0, w))
            (some-injective _ _ (rw (e, f, r, numeric_value) at h)) tt
      | inr r ↦ absurd (cc (rw (e, f, r, numeric_value) at h))
    ]
  ]
]

as_integer-Storable :
    (u : Unicode) (py : Python) (v w : Value)
    → Storable (0, v)
    → as_integer u py v ≡ some w
    → Storable (0, w)
unfolding as_integer
as_integer-Storable u py (text t) w k h =
    subst (λ (z : Value). Storable (0, z)) (some-injective _ _ h) tt
as_integer-Storable u py (int i) w k h =
    subst (λ (z : Value). Storable (0, z)) (some-injective _ _ h) k
as_integer-Storable u py (real x) w k h = elim (Option-cases (py.integer_of x)) [
  | inl e ↦ absurd (cc (rw (e, as_integer) at h))
  | inr (i, e) ↦ elim (Bool-cases (in_range i)) [
    | inl r ↦
        subst (λ (z : Value). Storable (0, z)) (some-injective _ _ (rw (e, r, as_integer) at h)) r
    | inr r ↦ absurd (cc (rw (e, r, as_integer) at h))
  ]
]

numeric_field_value-Storable :
    (u : Unicode) (py : Python) (f s : Text) (v : Value)
    → numeric_field_value u py f s ≡ some v
    → Storable (0, v)
unfolding numeric_field_value
numeric_field_value-Storable u py f s v h = elim (Option-cases (numeric_value u py s)) [
  | inl e ↦ absurd (cc (rw (e, numeric_field_value) at h))
  | inr (w, e) ↦ elim (Bool-cases (one_of integer_fields f)) [
    | inl r ↦
        as_integer-Storable u py w v (numeric_value-Storable u py s w e)
          (rw (e, r, numeric_field_value) at h)
    | inr r ↦
        subst (λ (z : Value). Storable (0, z))
          (some-injective _ _ (rw (e, r, numeric_field_value) at h))
          (numeric_value-Storable u py s w e)
  ]
]

number_condition-Passes :
    (u : Unicode) (py : Python) (ft : FieldToken) → Passes (number_condition u py ft)
unfolding number_condition
number_condition-Passes u py ft = elim (Option-cases (numeric_field_value u py ft.field ft.value)) [
  | inl e ↦ rw (e, number_condition, Passes) tt
  | inr (v, e) ↦
      let fits : Storable (0, v) = numeric_field_value-Storable u py ft.field ft.value v e in
      rw (e, number_condition, Passes)
        (elim (Bool-cases (no_option ft.operator)) [
          | inl r ↦ rw r (
              ⊕-Sound (lit-Sound _)
                (⊕-Sound (lit-Sound _) (⊕-Sound (lit-Sound _) (bound-Sound v fits))))
          | inr r ↦ rw r (compare-Sound (column_of ft.field) "m." " " ft.operator v fits)
        ])
]

size_condition-Passes : (w h : ℤ) → Passes (size_condition w h)
unfolding size_condition
size_condition-Passes w h = elim (Bool-cases (in_range w)) [
  | inr e ↦ rw e tt
  | inl e ↦ elim (Bool-cases (in_range h)) [
    | inr f ↦ rw (e, f) tt
    | inl f ↦
        rw (e, f)
          (⊕-Sound (lit-Sound _)
            (⊕-Sound (bound-Sound (int w) e) (⊕-Sound (lit-Sound _) (bound-Sound (int h) f))))
  ]
]

size_of-Passes : (w h : Option ℤ) → Passes (size_of w h)
unfolding size_of
size_of-Passes none h = tt
size_of-Passes (some w) none = tt
size_of-Passes (some w) (some h) = size_condition-Passes w h

handle_size-Passes : (u : Unicode) (py : Python) (ft : FieldToken) → Passes (handle_size u py ft)
unfolding handle_size
handle_size-Passes u py ft = elim (Option-cases (size_match u ft.value)) [
  | inl e ↦ rw (e, handle_size, Passes) tt
  | inr ((w, h), e) ↦ rw (e, handle_size, Passes) (size_of-Passes (to_int u py w) (to_int u py h))
]

-- The text of a model's condition shows the placeholders of its parts.
rowids_Shares :
    (direct : Condition) (n : ℕ) (b : Builder) (f : Fragment)
    → Shares (by_rowids f direct (param n) b).0 (direct ++ param n ∷ []) (f b).0
rowids_Shares direct n b f = record {
  parts = λ i s. elim (Shows-append i (f b).0 _ s) [
    | inl p ↦ inr p
    | inr (inl e) ↦ inl (Shows-right i direct _ (inl e))
    | inr (inr q) ↦ elim (Shows-append i direct _ q) [
      | inl d ↦ inl (Shows-left i direct _ d)
      | inr t ↦ inl (Shows-right i direct (param n ∷ []) t)
    ]
  ];
  first = λ i s. elim (Shows-append i direct _ s) [
    | inl d ↦ Shows-right i (f b).0 _ (inr (Shows-left i direct _ d))
    | inr (inl e) ↦ Shows-right i (f b).0 _ (inl e)
    | inr (inr x) ↦ elim x [ ]
  ];
  second = λ i p. Shows-left i (f b).0 _ p;
}

name_Shares :
    (direct : Condition) (n : ℕ) (b : Builder)
    → Shares (by_name direct (param n) b).0 direct (param n ∷ [])
name_Shares direct n b = record {
  parts = λ i s. Shows-append i direct _ s;
  first = λ i p. Shows-left i direct _ p;
  second = λ i q. Shows-right i direct _ q;
}

direct_model-Sound : (v : Text) → Sound (direct_model v)
direct_model-Sound v = search sound

model_value-Sound : (u : Unicode) (py : Python) (v : Text) → Sound (model_value u py v)
unfolding model_value next_param Builder.bound
model_value-Sound u py v = elim (Bool-cases (has_char b'*' v)) [
  | inl star ↦ record { written = λ b. rw star ((direct_model-Sound v).written b) }
  | inr plain ↦ elim (Option-cases (trigram_rowids u "model" v)) [
    | inl e ↦ record {
      written = λ b.
          rw (plain, e)
            (Written-then b _ _ _ _ _ ((direct_model-Sound v).written b)
              ((text-Sound (py.normalized_name v)).written (direct_model v b).1)
              (name_Shares _ _ (next_param (text (py.normalized_name v)) (direct_model v b).1).1));
    }
    | inr (f, e) ↦ record {
      written = λ b.
          let direct = (direct_model-Sound v).written b in
          let named = (text-Sound (py.normalized_name v)).written (direct_model v b).1 in
          rw (plain, e)
            (Written-then b _ _ _ _ _ (Written-then b _ _ _ _ _ direct named (Shares-append _ _))
              ((trigram_rowids-Sound u "model" v f e).written _) (rowids_Shares _ _ _ f));
    }
  ]
]

handle_model-Sound : (u : Unicode) (py : Python) (ft : FieldToken) → Sound (handle_model u py ft)
unfolding handle_model
handle_model-Sound u py ft =
    ⊕-Sound (lit-Sound _)
      (⊕-Sound (join_each-Sound _ _ (λ v. model_value-Sound u py v) _) (lit-Sound _))

pub record Passed (c : Checked) : Type 0 where
  pub at : Passes c

if-Passed : {c d : Checked} (b : Bool) → Passed c → Passed d → Passed (if b then c else d)
if-Passed true p q = p
if-Passed false p q = q

always : (f : Fragment) → Sound f → Passed (accepted f)
always f s = record { at = s }

number_condition-Passed :
    (u : Unicode) (py : Python) (ft : FieldToken) → Passed (number_condition u py ft)
number_condition-Passed u py ft = record { at = number_condition-Passes u py ft }

handle_standard_field-Passed :
    (u : Unicode) (py : Python) (ft : FieldToken) → Passed (handle_standard_field u py ft)
unfolding handle_standard_field
handle_standard_field-Passed u py ft =
    if-Passed _ (record { at = date_condition-Passes u ft })
      (if-Passed _ (number_condition-Passed u py ft) (
        if-Passed _ (always _ (text_condition-Sound u ft))
          (if-Passed _ (number_condition-Passed u py ft) (always _ (other_condition-Sound u ft)))))

pub handle_field-Passed :
    (u : Unicode) (py : Python) (ft : FieldToken) → Passed (handle_field u py ft)
unfolding handle_field
handle_field-Passed u py ft = if-Passed _ (always _ (handle_raw-Sound ft)) (
    if-Passed _ (always _ (handle_json_field-Sound py ft)) (
      if-Passed _ (always _ (handle_model_or_hash-Sound ft)) (
        if-Passed _ (always _ (handle_model-Sound u py ft)) (
          if-Passed _ (record { at = handle_size-Passes u py ft })
            (if-Passed _ (always _ (handle_path-Sound u ft)) (
              if-Passed _ (always _ (handle_resource_hash-Sound ft)) (
                if-Passed _ (always _ (handle_lora-Sound ft))
                  (handle_standard_field-Passed u py ft))))))))
