-- ===== src/Search/Bound.antt =====
-- The handlers write sound conditions: each value that is bound has its placeholder in the text.
use Prim.Native.String.{String}
use gallery.Base.{
  ◌≡◌, subst, inl, inr, not, ◌||◌, some, ltb, Bool-cases, Option-cases, some-injective, length,
}
use gallery.Base.Text.{Text, same}
use gallery.Search.Chars.{Unicode, strip, has_char}
use gallery.Search.Parse.{FieldToken}
use gallery.Search.Values.{Python, one_of, like_value}
use gallery.Search.Builder.{Fragment}
use gallery.Search.Handlers.{
  is_empty, key_text, handle_raw, handle_json_field, handle_model_or_hash, handle_resource_hash,
  handle_lora, handle_path,
}
use gallery.Search.Standard.{
  trigram_fields, trigram_rowids, behind, like_column, like_value_of, text_condition,
  other_condition,
}
use gallery.Search.Build.{residual_condition}
use gallery.Search.Fragments.{
  Sound, Shares-swap, Written-then, sound, if-Sound, ⊕-Sound, lit-Sound, join_each-Sound,
}

pub handle_raw-Sound : (ft : FieldToken) → Sound (handle_raw ft)
unfolding handle_raw
handle_raw-Sound ft = search sound

pub handle_model_or_hash-Sound : (ft : FieldToken) → Sound (handle_model_or_hash ft)
unfolding handle_model_or_hash
handle_model_or_hash-Sound ft = if-Sound (has_char b'=' ft.value) (search sound) (search sound)

pub handle_json_field-Sound : (py : Python) (ft : FieldToken) → Sound (handle_json_field py ft)
unfolding handle_json_field
handle_json_field-Sound py ft = elim (Bool-cases (is_empty (key_text ft.key))) [
  | inl e ↦ rw e (search sound)
  | inr e ↦ rw e (elim (Bool-cases (is_empty ft.value)) [
    | inl v ↦ rw v (search sound)
    | inr v ↦ rw v (search sound depth 8)
  ])
]

pub handle_resource_hash-Sound : (ft : FieldToken) → Sound (handle_resource_hash ft)
unfolding handle_resource_hash
handle_resource_hash-Sound ft = search sound

pub handle_lora-Sound : (ft : FieldToken) → Sound (handle_lora ft)
unfolding handle_lora
handle_lora-Sound ft = search sound depth 8

pub handle_path-Sound : (u : Unicode) (ft : FieldToken) → Sound (handle_path u ft)
unfolding handle_path
handle_path-Sound u ft =
    ⊕-Sound (lit-Sound _) (⊕-Sound (join_each-Sound " OR " _ (λ v. search sound) _) (lit-Sound _))

pub residual_condition-Sound : (u : Unicode) (q : Text) → Sound (residual_condition u q)
unfolding residual_condition
residual_condition-Sound u q = search sound

-- A fragment that stands behind one that binds later.
pub behind-Sound : {f g : Fragment} → Sound f → Sound g → Sound (behind f g)
unfolding behind
behind-Sound {f} {g} s t = record {
  written = λ b.
      Written-then b _ _ (f b).0 (g (f b).1).0 _ (s.written b) (t.written (f b).1)
        (Shares-swap _ _);
}

pub like_column-Sound : (col : String) (v : Text) → Sound (like_column col v)
unfolding like_column
like_column-Sound col v = search sound depth 8

pub trigram_rowids-Sound :
    (u : Unicode) (col : String) (v : Text) (f : Fragment)
    → trigram_rowids u col v ≡ some f
    → Sound f
unfolding trigram_rowids
trigram_rowids-Sound u col v f h =
    elim (Bool-cases (ltb (length (strip u v)) 3 || has_char b'*' v)) [
      | inl e ↦ absurd (cc (rw (e, trigram_rowids) at h))
      | inr e ↦ subst Sound (some-injective _ _ (rw (e, trigram_rowids) at h)) (search sound)
    ]

pub like_value_of-Sound :
    (u : Unicode) (f : Text) (col : String) (v : Text) → Sound (like_value_of u f col v)
unfolding like_value_of
like_value_of-Sound u f col v = elim (Bool-cases (one_of trigram_fields f)) [
  | inr e ↦ rw e (like_column-Sound col v)
  | inl e ↦ rw e (elim (Option-cases (trigram_rowids u col v)) [
    | inl n ↦ rw n (like_column-Sound col v)
    | inr (g, s) ↦ rw s (
        behind-Sound (⊕-Sound (like_column-Sound col v) (lit-Sound _))
          (⊕-Sound (lit-Sound _) (⊕-Sound (trigram_rowids-Sound u col v g s) (lit-Sound _))))
  ])
]

pub text_condition-Sound : (u : Unicode) (ft : FieldToken) → Sound (text_condition u ft)
unfolding text_condition
text_condition-Sound u ft =
    ⊕-Sound (lit-Sound _)
      (⊕-Sound (join_each-Sound _ _ (λ v. like_value_of-Sound u _ _ v) _) (lit-Sound _))

pub other_condition-Sound : (u : Unicode) (ft : FieldToken) → Sound (other_condition u ft)
unfolding other_condition
other_condition-Sound u ft =
    elim (Bool-cases (not (same (like_value ft.value) ft.value) || has_char b'*' ft.value)) [
      | inl e ↦ rw e (search sound depth 8)
      | inr e ↦ rw e (
          ⊕-Sound (lit-Sound _)
            (⊕-Sound (join_each-Sound _ _ (λ v. search sound depth 8) _) (lit-Sound _)))
    ]
