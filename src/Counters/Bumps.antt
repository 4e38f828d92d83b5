-- ===== src/Counters/Bumps.antt =====
-- What the triggers' UPDATE of a counter does to each counter, by name.
use gallery.Base.{
  ◌≡◌, refl, Bool, true, false, Option, none, some, List, [], ◌∷◌, arith, if◌then◌else◌,
}
use gallery.Base.Text.{Text, codes, same, same_iff, same-append}
use gallery.Base.Int.{ℤ}
use gallery.Counters.Tables.{Trigger, Database, metadata_counter_name, ready_bytes_counter, get}
use gallery.Counters.Triggers.{bump, fire}

-- The database has the counter `k` at `v`, in a table that exists.
pub record Holds (k : Text) (v : ℤ) (cs : Option (List (Text × ℤ))) : Type 0 where
  pub at : elim cs [ none ↦ none | some xs ↦ get k xs ] ≡ some v

pub bump-hit :
    (k : Text) (f : ℤ → ℤ) (v : ℤ) (cs : List (Text × ℤ))
    → get k cs ≡ some v
    → get k (bump k f cs) ≡ some (f v)
unfolding bump get
bump-hit k f v [] h = cc
bump-hit k f v ((n, w) ∷ cs) h = ground (arith, bump-hit k f v cs)

pub bump-miss :
    (k n : Text) (f : ℤ → ℤ) (cs : List (Text × ℤ))
    → same n k ≡ false
    → get k (bump n f cs) ≡ get k cs
unfolding bump get
bump-miss k n f [] h = refl
bump-miss k n f ((m, w) ∷ cs) h =
    ground (arith, bump-miss k n f cs, same_iff m n, same_iff m k, same_iff n k)

pub same-metadata_counter_name :
    (s t : Text) → same (metadata_counter_name s) (metadata_counter_name t) ≡ same s t
unfolding metadata_counter_name
same-metadata_counter_name s t = same-append (codes "metadata_jobs.") s t

pub metadata-ready : (s : Text) → same (metadata_counter_name s) ready_bytes_counter ≡ false
unfolding metadata_counter_name ready_bytes_counter same
metadata-ready s = refl

pub ready-metadata : (s : Text) → same ready_bytes_counter (metadata_counter_name s) ≡ false
unfolding metadata_counter_name ready_bytes_counter same
ready-metadata s = refl

pub get→Holds : (k : Text) (v : ℤ) (cs : List (Text × ℤ)) → get k cs ≡ some v → Holds k v (some cs)
get→Holds k v cs h = record { at = h }

-- A trigger that is installed sets the counter by its body, if its test holds.
pub fire-Holds :
    (d : Database) (t : Trigger) (when : Bool) (body : List (Text × ℤ) → List (Text × ℤ)) (k : Text)
    (v w : ℤ)
    → d.installed t ≡ true
    → Holds k v d.counters
    → ((cs : List (Text × ℤ)) → get k cs ≡ some v → get k (body cs) ≡ some w)
    → Holds k (if when then w else v) (fire d t when body)
unfolding fire
fire-Holds d t true body k v w i h step = rw i (fire_some d.counters h)
  where
    fire_some :
        (cs : Option (List (Text × ℤ)))
        → Holds k v cs
        → Holds k w (elim cs [ none ↦ none | some xs ↦ some (body xs) ])
    fire_some none g = absurd (cc (g.at))
    fire_some (some xs) g = record { at = step xs g.at }
fire-Holds d t false body k v w i h step = rw i h

-- A trigger whose test fails changes nothing.
pub fire-idle :
    (d : Database) (t : Trigger) (body : List (Text × ℤ) → List (Text × ℤ)) (k : Text) (v : ℤ)
    → d.installed t ≡ true
    → Holds k v d.counters
    → Holds k v (fire d t false body)
unfolding fire
fire-idle d t body k v i h = rw i h

-- What is held can be read.
pub Holds→get :
    (k : Text) (v : ℤ) (cs : Option (List (Text × ℤ)))
    → Holds k v cs
    → get k (elim cs [ none ↦ [] | some xs ↦ xs ]) ≡ some v
Holds→get k v none h = absurd (cc (h.at))
Holds→get k v (some xs) h = h.at
