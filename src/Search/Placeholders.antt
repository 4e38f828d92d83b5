-- ===== src/Search/Placeholders.antt =====
-- The conditions that are built and their parameters fit together.
use gallery.Base.{
  ℕ, ◌<◌, ◌≡◌, refl, sym, ap, subst, ◌↔◌, inl, inr, Bool, true, false, List, [], ◌∷◌, ◌++◌, arith,
  if◌then◌else◌, length, All,
}
use gallery.Search.Chars.{Unicode}
use gallery.Search.Parse.{FieldToken, ParsedQuery}
use gallery.Search.Values.{Value, Python}
use gallery.Search.Builder.{Builder, Condition, Fragment, add}
use gallery.Search.Handlers.{Checked, accepted, invalid, is_empty}
use gallery.Search.Build.{
  residual_condition, handle_field, Outcome, built, raised, handle_each, new_builder,
  build_fielded_conditions, join_conditions, where_clause,
}
use gallery.Search.Fragments.{
  Written, Sound, Storable, Numbered, Shows, Shares, Written-then, Shows-append, Shows-left,
  Shows-right,
}
use gallery.Search.Bound.{residual_condition-Sound}
use gallery.Search.Checks.{Passed, handle_field-Passed}

-- The invariant of the builder while the tokens are handled.
record Open (b : Builder) : Type 0 where
  joined : Written new_builder (join_conditions b.conditions) (record b { conditions = [] })

-- The parameters are p0, p1, ... in this order, each storable, and they are exactly the placeholders of
-- the conditions.
pub record Fits (b : Builder) : Type 0 where
  pub named : Numbered 0 b.params
  pub counted : length b.params ≡ b.param_idx
  pub storable : All Storable b.params
  pub used : (i : ℕ) → Shows i (where_clause b.conditions) ↔ (i < b.param_idx)

join_last :
    (cs : List Condition) (c : Condition)
    → Shares (join_conditions (cs ++ c ∷ [])) (join_conditions cs) c
unfolding join_conditions
join_last [] c = record { parts = λ i s. inr s; first = λ i s. elim s [ ]; second = λ i s. s }
join_last (d ∷ []) c = record {
  parts = λ i s. Shows-append i d _ s;
  first = λ i s. Shows-left i d _ s;
  second = λ i s. Shows-right i d _ s;
}
join_last (d ∷ e ∷ cs) c =
    let ih : Shares (join_conditions ((e ∷ cs) ++ c ∷ [])) (join_conditions (e ∷ cs)) c =
      join_last (e ∷ cs) c in
    record {
      parts = λ i s. elim (Shows-append i d _ s) [
        | inl p ↦ inl (Shows-left i d _ p)
        | inr q ↦ elim (ih.parts i q) [ inl p ↦ inl (Shows-right i d _ p) | inr p ↦ inr p ]
      ];
      first = λ i s. elim (Shows-append i d _ s) [
        | inl p ↦ Shows-left i d _ p
        | inr q ↦ Shows-right i d _ (ih.first i q)
      ];
      second = λ i s. Shows-right i d _ (ih.second i s);
    }

-- What a fragment writes does not depend on the conditions that there are.
without_conditions :
    (b b' : Builder) (c : Condition)
    → Written b c b'
    → Written (record b { conditions = [] }) c (record b' { conditions = [] })
without_conditions b b' c w = record {
  values = w.values;
  bound = w.bound;
  counted = w.counted;
  keyed = w.keyed;
  storable = w.storable;
  kept = refl;
  shows = w.shows;
  shown = w.shown;
}

built-injective : (b b' : Builder) → built b ≡ built b' → b ≡ b'
built-injective b b' h = ap (λ (o : Outcome). elim o [ built c ↦ c | raised e ↦ b ]) h

add-Open : (f : Fragment) (b : Builder) → Sound f → Open b → Open (add f b)
unfolding add
add-Open f b s o =
    let w : Written b (f b).0 (f b).1 = s.written b in
    record {
      joined =
          subst
            (λ (cs : List Condition).
              Written new_builder (join_conditions (cs ++ (f b).0 ∷ []))
                (record (f b).1 { conditions = [] }))
            (sym w.kept)
            (Written-then new_builder _ _ _ _ _ o.joined (without_conditions b (f b).1 (f b).0 w)
              (join_last b.conditions (f b).0));
    }

handle_each-Open :
    (u : Unicode) (py : Python) (ts : List FieldToken) (b b' : Builder)
    → Open b
    → handle_each u py ts b ≡ built b'
    → Open b'
unfolding handle_each
handle_each-Open u py [] b b' o h = subst Open (built-injective b b' h) o
handle_each-Open u py (t ∷ ts) b b' o h =
    go (handle_field u py t) (handle_field-Passed u py t)
      (λ f s k. handle_each-Open u py ts (add f b) b' (add-Open f b s o) k) h
  where
    go :
        (c : Checked)
        → Passed c
        → ((f : Fragment) → Sound f → handle_each u py ts (add f b) ≡ built b' → Open b')
        → (elim c [ accepted f ↦ handle_each u py ts (add f b) | invalid e ↦ raised e ]) ≡ built b'
        → Open b'
    go (accepted f) p rest k = rest f p.at k
    go (invalid e) p rest k = cc

new_builder-Open : Open new_builder
unfolding join_conditions
new_builder-Open = record {
  joined = record {
    values = [];
    bound = refl;
    counted = refl;
    keyed = tt;
    storable = tt;
    kept = refl;
    shows = λ i s. elim s [ ];
    shown = λ i lo hi. absurd (omega (arith, lo, hi));
  };
}

where_clause-Shows :
    (i : ℕ) (cs : List Condition) → Shows i (where_clause cs) ↔ Shows i (join_conditions cs)
unfolding where_clause join_conditions
where_clause-Shows i [] = (λ s. s, λ s. s)
where_clause-Shows i (c ∷ cs) = (λ s. s, λ s. s)

Open-Fits : (b : Builder) → Open b → Fits b
Open-Fits b o =
    let w = o.joined in
    record {
      named = subst (λ (ps : List (ℕ × Value)). Numbered 0 ps) (sym w.bound) w.keyed;
      counted = omega (arith, ap (λ (ps : List (ℕ × Value)). length ps) w.bound, w.counted);
      storable = subst (λ (ps : List (ℕ × Value)). All Storable ps) (sym w.bound) w.storable;
      used = λ i. (
        λ s. (w.shows i ((where_clause-Shows i b.conditions).0 s)).1,
        λ below. (where_clause-Shows i b.conditions).1 (w.shown i (omega arith) below),
      );
    }

-- When build_fielded_conditions returns, whatever the query: its parameters are named p0, p1, ... in
-- the order in which they were bound, so that none replaces another; every integer among them lies
-- between -2^63 and 2^63 - 1; and a placeholder stands in the WHERE clause exactly if it is bound.
pub build_fielded_conditions-Fits :
    (u : Unicode) (py : Python) (q : ParsedQuery) (b : Builder)
    → build_fielded_conditions u py q ≡ built b
    → Fits b
unfolding build_fielded_conditions
build_fielded_conditions-Fits u py q b h =
    Open-Fits b (handle_each-Open u py q.fields _ b (first (is_empty q.residual_text)) h)
  where
    first :
        (e : Bool)
        → Open (if e then new_builder else add (residual_condition u q.residual_text) new_builder)
    first true = new_builder-Open
    first false =
        add-Open _ new_builder (residual_condition-Sound u q.residual_text) new_builder-Open
