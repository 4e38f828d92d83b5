-- ===== src/Derivatives/EvictScenarios.antt =====
-- Two ready thumbnails, one of which has to go.
use Prim.Native.String.{String}
use gallery.Base.{ℕ, ◌≡◌, ◌≤◌, ◌<◌, refl, false, none, some, [], ◌∷◌, All}
use gallery.Derivatives.Catalog.{
  Status, Derivative, Catalog, ready_bytes, reserving_jobs, held, update_id,
}
use gallery.Derivatives.Ledger.{capacity_available, capacity_counts}
use gallery.Derivatives.Evict.{
  Candidate, evict, missing_bytes, select_and_evict, apply_touches, by_use, rows_to_evict, pick,
  evict_each, last_used,
}
use gallery.Derivatives.Evict.Evicted.{bytes_of, but_last, evicts_least}

abbrev thumbnail : ℕ → String → ℕ → ℕ → Derivative
thumbnail i path size used = record {
  id = i;
  identity = record {
    asset_id = i;
    kind = "thumbnail";
    variant = "thumb_256";
    source_mtime_ns = 5;
    source_size = 900;
  };
  format = "webp";
  quality = 80;
  max_long_edge = 256;
  status = Status.ready;
  cache_path = some path;
  byte_size = some size;
  last_accessed_at = some used;
  attempts = 1;
  last_error = none;
  created_at = 0;
}

abbrev full : Catalog
full = record {
  derivatives = thumbnail 2 "/cache/b.webp" 600 30 ∷ thumbnail 1 "/cache/a.webp" 800 10 ∷ [];
  jobs = [];
  next_derivative = 3;
  next_job = 1;
  assets = [];
  now = 40;
}

abbrev oldest : Candidate
oldest = record { derivative_id = 1; cache_path = "/cache/a.webp"; byte_size = 800 }

evicts_oldest : (select_and_evict (λ path. false) [] 300 1500 full).0 ≡ evict (oldest ∷ [])
unfolding select_and_evict capacity_available capacity_counts apply_touches by_use rows_to_evict
    pick evict_each last_used ready_bytes reserving_jobs held update_id
evicts_oldest = refl

evicts_least_example :
    (missing_bytes full 300 1500 ≤ bytes_of (oldest ∷ []))
    × (bytes_of (but_last (oldest ∷ [])) < missing_bytes full 300 1500)
    × All (λ x. false ≡ false) (oldest ∷ [])
evicts_least_example = evicts_least (λ path. false) [] 300 1500 full (oldest ∷ []) evicts_oldest
