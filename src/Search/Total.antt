-- ===== src/Search/Total.antt =====
-- Each round of the loop of parse_fielded_query consumes text, so the loop ends.
use gallery.Base.{
  ℕ, zero, suc, ◌≤◌, ◌<◌, ◌≡◌, refl, ap, ◌∙◌, inl, inr, Bool, true, false, none, some, List, [],
  ◌∷◌, ◌++◌, arith, if◌then◌else◌, Option-cases, some-injective, length,
}
use gallery.Base.Text.{Text}
use gallery.Search.Chars.{Unicode, is_word, lstrip, rstrip, strip}
use gallery.Search.Pattern.{
  NameMatch, FieldMatch, match_letters, after_colon, match_name, match_names, field_names, field_at,
  search_from, search_field, xor,
}
use gallery.Search.Reader.{Read, read_quoted, skip_blanks, read_plain, read_at, read_field_value}
use gallery.Search.Parse.{
  FieldToken, ParsedQuery, json_token, token_of, read_token, parse_loop, parse_fielded_query,
}

module _ (u : Unicode) where
  length-lstrip : (s : Text) → length (lstrip u s) ≤ length s
  unfolding lstrip
  length-lstrip [] = omega arith
  length-lstrip (c ∷ s) = ground (arith, length-lstrip s)

  length-match_letters :
      (n s : Text) (m : NameMatch) → match_letters u n s ≡ some m → length m.rest ≤ length s
  unfolding match_letters
  length-match_letters [] s m h = ground arith
  length-match_letters (p ∷ ps) [] m h = cc
  length-match_letters (p ∷ ps) (c ∷ s) m h = elim (Option-cases (match_letters u ps s)) [
    | inl e ↦ ground arith
    | inr (k, e) ↦ ground (arith, length-match_letters ps s k e)
  ]

  length-after_colon : (s r : Text) → after_colon u s ≡ some r → length r < length s
  unfolding after_colon
  length-after_colon [] r h = cc
  length-after_colon (c ∷ s) r h = ground (arith, length-lstrip s)

  length-match_name :
      (n s : Text) (m : NameMatch) → match_name u n s ≡ some m → length m.rest < length s
  unfolding match_name
  length-match_name n s m h = elim (Option-cases (match_letters u n s)) [
    | inl e ↦ absurd (cc (rw (e, match_name) at h))
    | inr (k, e) ↦ elim (Option-cases (after_colon u (lstrip u k.rest))) [
      | inl f ↦ absurd (cc (rw (e, f, match_name) at h))
      | inr (r, f) ↦
          let same_rest : r ≡ m.rest =
            ap (λ (x : NameMatch). x.rest) (some-injective _ _ (rw (e, f, match_name) at h)) in
          ground (
            arith,
            length-after_colon _ _ f,
            length-lstrip k.rest,
            length-match_letters n s k e,
            same_rest,
          )
    ]
  ]

  length-match_names :
      (ns : List Text) (s : Text) (m : NameMatch)
      → match_names u ns s ≡ some m
      → length m.rest < length s
  unfolding match_names
  length-match_names [] s m h = cc
  length-match_names (n ∷ ns) s m h = elim (Option-cases (match_name u n s)) [
    | inl e ↦ length-match_names ns s m (rw (e, match_names) at h)
    | inr (k, e) ↦ length-match_name n s m (e ∙ rw (e, match_names) at h)
  ]

  length-field_at :
      (b : Bool) (s : Text) (m : NameMatch)
      → (if b then field_at u s else none) ≡ some m
      → length m.rest < length s
  unfolding field_at
  length-field_at true s m h = length-match_names field_names s m h
  length-field_at false s m h = cc

  -- What `search_from` returns at one character, from its two parts.
  length-search_from :
      (b : Bool) (s : Text) (m : FieldMatch) → search_from u b s ≡ some m → length m.rest < length s
  unfolding search_from
  length-search_from b [] m h = cc
  length-search_from b (c ∷ s) m h =
      elim (Option-cases (if xor u b (is_word u c) then field_at u (c ∷ s) else none)) [
        | inr (k, e) ↦
            let rest : k.rest ≡ m.rest =
              ap (λ (x : FieldMatch). x.rest) (some-injective _ _ (rw (e, search_from) at h)) in
            ground (arith, length-field_at (xor u b (is_word u c)) (c ∷ s) k e, rest)
        | inl e ↦ elim (Option-cases (search_from u (is_word u c) s)) [
          | inl f ↦ absurd (cc (rw (e, f, search_from) at h))
          | inr (k, f) ↦
              let rest : k.rest ≡ m.rest =
                ap (λ (x : FieldMatch). x.rest)
                  (some-injective _ _ (rw (e, f, search_from) at h)) in
              ground (arith, length-search_from (is_word u c) s k f, rest)
        ]
      ]

  length-search_field :
      (s : Text) (m : FieldMatch) → search_field u s ≡ some m → length m.rest < length s
  unfolding search_field
  length-search_field s m h = length-search_from false s m h

  length-skip_blanks : (s : Text) → length (skip_blanks s) ≤ length s
  unfolding skip_blanks
  length-skip_blanks [] = omega arith
  length-skip_blanks (c ∷ s) = ground (arith, length-skip_blanks s)

  length-read_quoted : (q : ℕ) (s : Text) → length (read_quoted q s).1 ≤ length s
  unfolding read_quoted
  length-read_quoted q [] = omega arith
  length-read_quoted q (c ∷ []) = ground arith
  length-read_quoted q (c ∷ d ∷ s) =
      ground (arith, length-read_quoted q s, length-read_quoted q (d ∷ s))

  length-read_plain : (s : Text) → length (read_plain u s).1 ≤ length s
  unfolding read_plain
  length-read_plain [] = omega arith
  length-read_plain (c ∷ s) = ground (arith, length-read_plain s)

  length-read_at : (s : Text) → length (read_at u s).rest ≤ length s
  unfolding read_at
  length-read_at [] = omega arith
  length-read_at (c ∷ s) = ground (arith, length-read_quoted c s, length-read_plain (c ∷ s))

  length-read_field_value : (s : Text) → length (read_field_value u s).rest ≤ length s
  unfolding read_field_value
  length-read_field_value s = omega (arith, length-read_at (skip_blanks s), length-skip_blanks s)

  length-json_token : (f : Text) (r : Read) → length (json_token u f r).1 ≤ length r.rest
  unfolding json_token
  length-json_token f r = ground (arith, length-read_field_value r.rest)

  length-token_of : (f : Text) (r : Read) → length (token_of u f r).1 ≤ length r.rest
  unfolding token_of
  length-token_of f r = ground (arith, length-json_token f r)

  length-read_token : (m : FieldMatch) → length (read_token u m).1 ≤ length m.rest
  unfolding read_token
  length-read_token m =
      omega (arith, length-token_of _ (read_field_value u m.rest), length-read_field_value m.rest)

  parse_loop_total :
      (fuel : ℕ) (s : Text)
      → length s < fuel
      → (r : Text × List FieldToken) × (parse_loop u fuel s ≡ some r) × (length r.1 ≤ length s)
  unfolding parse_loop
  parse_loop_total zero s h = elim h [ ]
  parse_loop_total (suc fuel) [] h = (([], []), refl, omega arith)
  parse_loop_total (suc fuel) (c ∷ s) h = elim (Option-cases (search_field u (c ∷ s))) [
    | inl e ↦ ((c ∷ s, []), rw (e, parse_loop) refl, omega arith)
    | inr (m, e) ↦
        let shorter : length m.rest < length (c ∷ s) = length-search_field (c ∷ s) m e in
        let ih = parse_loop_total fuel (read_token u m).1 (omega (arith, length-read_token m)) in
        (
          (rstrip u m.prefix ++ ih.0.0, (read_token u m).0 ∷ ih.0.1),
          rw (e, ih.1, parse_loop) refl,
          omega (arith, ih.2, length-read_token m),
        )
  ]

parse_of_loop :
    (u : Unicode) (raw : Text) (r : Text × List FieldToken)
    → parse_loop u (suc (length raw)) raw ≡ some r
    → parse_fielded_query u raw ≡ some (record { residual_text = strip u r.0; fields = r.1 })
unfolding parse_fielded_query
parse_of_loop u raw r h = rw (h, parse_fielded_query) refl

-- Whatever the text is, parse_fielded_query returns a query, within one round of its loop for each
-- character, and finds no more fields than there are characters.
pub parse_fielded_query_total :
    (u : Unicode) (raw : Text)
    → (q : ParsedQuery) × (parse_fielded_query u raw ≡ some q) × (length q.fields ≤ length raw)
parse_fielded_query_total u raw =
    let run = parse_loop_total u (suc (length raw)) raw (omega arith) in
    (
      record { residual_text = strip u run.0.0; fields = run.0.1 },
      parse_of_loop u raw run.0 run.1,
      run.2,
    )
