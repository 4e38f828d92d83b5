-- ===== src/Paths/Sorted.antt =====
-- The collation GALLERY_NATURAL, _compare_natural_sql, on whole texts.
use gallery.Base.{
  ◌≡◌, refl, sym, ap, subst, ◌∙◌, inl, inr, true, Option, some, List, Option-cases, some-injective,
}
use gallery.Base.Text.{Text}
use gallery.Base.Int.{ℤ, negsuc}
use gallery.Paths.Natural.{
  CharTables, Part, natural_sort_parts, or_empty, compare_parts, compare_natural,
}
use gallery.Paths.Collation.{negate, compare_parts_swap}
use gallery.Paths.Transitive.{compare_parts_trans}
use gallery.Paths.Split.{natural_sort_parts-alternate}

-- A comparison that does not raise has read both texts.
both_read :
    (u : CharTables) (a b : Option Text) (z : ℤ)
    → compare_natural u a b ≡ some z
    → (ps : List Part) × (qs : List Part) × (natural_sort_parts u (or_empty u a) ≡ some ps)
      × (natural_sort_parts u (or_empty u b) ≡ some qs)
      × (compare_parts ps qs ≡ z)
unfolding compare_natural
both_read u a b z h = elim (Option-cases (natural_sort_parts u (or_empty u a))) [
  | inl e ↦ absurd (cc (rw (e, compare_natural) at h))
  | inr e ↦
      let h1 = rw (e.1, compare_natural) at h in
      elim (Option-cases (natural_sort_parts u (or_empty u b))) [
        | inl f ↦ absurd (cc (rw f at h1))
        | inr f ↦ (e.0, f.0, e.1, f.1, some-injective _ _ (rw (f.1) at h1))
      ]
]

when_read :
    (u : CharTables) (a b : Option Text) (ps qs : List Part)
    → natural_sort_parts u (or_empty u a) ≡ some ps
    → natural_sort_parts u (or_empty u b) ≡ some qs
    → compare_natural u a b ≡ some (compare_parts ps qs)
unfolding compare_natural
when_read u a b ps qs e f = rw (e, f, compare_natural) refl

-- When the comparison of two texts does not raise, that of the second with the first has the opposite
-- sign.
pub compare_natural_swap :
    (u : CharTables) (left right : Option Text) (z : ℤ)
    → compare_natural u left right ≡ some z
    → compare_natural u right left ≡ some (negate z)
compare_natural_swap u left right z h =
    let r = both_read u left right z h in
    when_read u right left r.1 r.0 r.3 r.2 ∙ ap some (compare_parts_swap r.0 r.1 ∙ ap negate r.4)

-- When a first text is less than a second and the second less than a third, the first is less than the
-- third; the comparison of the first with the third does not raise then.
pub compare_natural_trans :
    (u : CharTables) (a b c : Option Text)
    → compare_natural u a b ≡ some (negsuc 0)
    → compare_natural u b c ≡ some (negsuc 0)
    → compare_natural u a c ≡ some (negsuc 0)
compare_natural_trans u a b c h k =
    let r = both_read u a b _ h in
    let s = both_read u b c _ k in
    let same_parts = some-injective _ _ (sym r.3 ∙ s.2) in
    when_read u a c r.0 s.1 r.2 s.3
    ∙ ap some (
        compare_parts_trans true r.0 s.0 s.1 (natural_sort_parts-alternate u _ _ r.2)
          (natural_sort_parts-alternate u _ _ s.2) (natural_sort_parts-alternate u _ _ s.3)
          (subst (λ x. compare_parts r.0 x ≡ negsuc 0) same_parts r.4) s.4)
