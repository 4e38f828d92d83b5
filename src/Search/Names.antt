-- ===== src/Search/Names.antt =====
-- The fields that take one quoted value, and that FIELD_PATTERN finds each of them.
use gallery.Base.{◌≡◌, refl, sym, subst, inl, inr, false, some, List, [], ◌∷◌, ◌++◌, All, Has}
use gallery.Base.Text.{Text, codes, same}
use gallery.Search.Chars.{Unicode, is_space, is_word, fold, lower, lstrip}
use gallery.Search.Pattern.{
  find_alias, normalize_field_name, match_letters, after_colon, match_name, match_names, field_at,
  search_from, search_field,
}
use gallery.Search.Parse.{is_json_field}

-- Every name but param and advanced, whose tokens have a key.
abbrev pub quotable_names : List Text
quotable_names =
    codes "prompt"
    ∷ codes "positive"
    ∷ codes "negative"
    ∷ codes "date"
    ∷ codes "generation_time"
    ∷ codes "gen_time"
    ∷ codes "source"
    ∷ codes "tool"
    ∷ codes "seed"
    ∷ codes "steps"
    ∷ codes "cfg"
    ∷ codes "cfg_scale"
    ∷ codes "sampler"
    ∷ codes "scheduler"
    ∷ codes "size"
    ∷ codes "width"
    ∷ codes "height"
    ∷ codes "aspect_ratio"
    ∷ codes "ratio"
    ∷ codes "model"
    ∷ codes "checkpoint"
    ∷ codes "model_hash"
    ∷ codes "model_or_hash"
    ∷ codes "lora"
    ∷ codes "resource"
    ∷ codes "resource_hash"
    ∷ codes "clip_skip"
    ∷ codes "hires_upscale"
    ∷ codes "hires_steps"
    ∷ codes "denoising_strength"
    ∷ codes "vae"
    ∷ codes "ensd"
    ∷ codes "aesthetic_score"
    ∷ codes "path"
    ∷ codes "folder"
    ∷ codes "location"
    ∷ codes "name"
    ∷ codes "raw"
    ∷ []

-- After a blank, and before a colon and a quoted value, the name is found as it is written.
pub record Readable (u : Unicode) (n : Text) : Type 0 where
  pub found :
      (rest : Text)
      → search_field u (b' ' ∷ (n ++ b':' ∷ b'"' ∷ rest))
        ≡ some (record { prefix = b' ' ∷ []; name = n; rest = b'"' ∷ rest })
  pub lowered : lower u n ≡ n
  pub one_value : is_json_field (normalize_field_name n) ≡ false

names_Readable : (u : Unicode) → All (Readable u) quotable_names
unfolding search_field search_from field_at match_names match_name match_letters after_colon
    is_space is_word fold lower lstrip normalize_field_name find_alias same
names_Readable u = (
  record { found = λ rest. refl; lowered = refl; one_value = refl },
  (
    record { found = λ rest. refl; lowered = refl; one_value = refl },
    (
      record { found = λ rest. refl; lowered = refl; one_value = refl },
      (
        record { found = λ rest. refl; lowered = refl; one_value = refl },
        (
          record { found = λ rest. refl; lowered = refl; one_value = refl },
          (
            record { found = λ rest. refl; lowered = refl; one_value = refl },
            (
              record { found = λ rest. refl; lowered = refl; one_value = refl },
              (
                record { found = λ rest. refl; lowered = refl; one_value = refl },
                (
                  record { found = λ rest. refl; lowered = refl; one_value = refl },
                  (
                    record { found = λ rest. refl; lowered = refl; one_value = refl },
                    (
                      record { found = λ rest. refl; lowered = refl; one_value = refl },
                      (
                        record { found = λ rest. refl; lowered = refl; one_value = refl },
                        (
                          record { found = λ rest. refl; lowered = refl; one_value = refl },
                          (
                            record { found = λ rest. refl; lowered = refl; one_value = refl },
                            (
                              record { found = λ rest. refl; lowered = refl; one_value = refl },
                              (
                                record { found = λ rest. refl; lowered = refl; one_value = refl },
                                (
                                  record { found = λ rest. refl; lowered = refl; one_value = refl },
                                  (
                                    record {
                                      found = λ rest. refl;
                                      lowered = refl;
                                      one_value = refl;
                                    },
                                    (
                                      record {
                                        found = λ rest. refl;
                                        lowered = refl;
                                        one_value = refl;
                                      },
                                      (
                                        record {
                                          found = λ rest. refl;
                                          lowered = refl;
                                          one_value = refl;
                                        },
                                        (
                                          record {
                                            found = λ rest. refl;
                                            lowered = refl;
                                            one_value = refl;
                                          },
                                          (
                                            record {
                                              found = λ rest. refl;
                                              lowered = refl;
                                              one_value = refl;
                                            },
                                            (
                                              record {
                                                found = λ rest. refl;
                                                lowered = refl;
                                                one_value = refl;
                                              },
                                              (
                                                record {
                                                  found = λ rest. refl;
                                                  lowered = refl;
                                                  one_value = refl;
                                                },
                                                (
                                                  record {
                                                    found = λ rest. refl;
                                                    lowered = refl;
                                                    one_value = refl;
                                                  },
                                                  (
                                                    record {
                                                      found = λ rest. refl;
                                                      lowered = refl;
                                                      one_value = refl;
                                                    },
                                                    (
                                                      record {
                                                        found = λ rest. refl;
                                                        lowered = refl;
                                                        one_value = refl;
                                                      },
                                                      (
                                                        record {
                                                          found = λ rest. refl;
                                                          lowered = refl;
                                                          one_value = refl;
                                                        },
                                                        (
                                                          record {
                                                            found = λ rest. refl;
                                                            lowered = refl;
                                                            one_value = refl;
                                                          },
                                                          (
                                                            record {
                                                            found = λ rest. refl;
                                                            lowered = refl;
                                                            one_value = refl;
                                                            },
                                                            (
                                                            record {
                                                            found = λ rest. refl;
                                                            lowered = refl;
                                                            one_value = refl;
                                                            },
                                                            (
                                                            record {
                                                            found = λ rest. refl;
                                                            lowered = refl;
                                                            one_value = refl;
                                                            },
                                                            (
                                                            record {
                                                            found = λ rest. refl;
                                                            lowered = refl;
                                                            one_value = refl;
                                                            },
                                                            (
                                                            record {
                                                            found = λ rest. refl;
                                                            lowered = refl;
                                                            one_value = refl;
                                                            },
                                                            (
                                                            record {
                                                            found = λ rest. refl;
                                                            lowered = refl;
                                                            one_value = refl;
                                                            },
                                                            (
                                                            record {
                                                            found = λ rest. refl;
                                                            lowered = refl;
                                                            one_value = refl;
                                                            },
                                                            (
                                                            record {
                                                            found = λ rest. refl;
                                                            lowered = refl;
                                                            one_value = refl;
                                                            },
                                                            (
                                                            record {
                                                            found = λ rest. refl;
                                                            lowered = refl;
                                                            one_value = refl;
                                                            },
                                                            tt,
                                                            ),
                                                            ),
                                                            ),
                                                            ),
                                                            ),
                                                            ),
                                                            ),
                                                            ),
                                                          ),
                                                        ),
                                                      ),
                                                    ),
                                                  ),
                                                ),
                                              ),
                                            ),
                                          ),
                                        ),
                                      ),
                                    ),
                                  ),
                                ),
                              ),
                            ),
                          ),
                        ),
                      ),
                    ),
                  ),
                ),
              ),
            ),
          ),
        ),
      ),
    ),
  ),
)

All-Has : {A : Type 0} (P : A → Type 0) (x : A) (xs : List A) → All P xs → Has x xs → P x
All-Has P x [] a h = elim h [ ]
All-Has P x (y ∷ ys) a (inl e) = subst P (sym e) a.0
All-Has P x (y ∷ ys) a (inr h) = All-Has P x ys a.1 h

pub quotable-Readable : (u : Unicode) (n : Text) → Has n quotable_names → Readable u n
quotable-Readable u n h = All-Has (Readable u) n quotable_names (names_Readable u) h
