-- ===== src/Derivatives/Scenarios.antt =====
-- A catalog with one ready thumbnail whose file is gone and one evicted preview.
use gallery.Base.{◌≡◌, refl, true, false, none, some, [], ◌∷◌, arith, inl}
use gallery.Derivatives.Catalog.{Status, Identity, Derivative, Catalog}
use gallery.Derivatives.Catalog.Tables.{IsKeyed}
use gallery.Derivatives.Ledger.{unloaded}
use gallery.Derivatives.Coalesce.{Request, Coalesced, coalesce}
use gallery.Derivatives.Coalesce.SameAs.{SameAs}
use gallery.Derivatives.Coalesce.LedgerExact.{coalesce-ledger_exact}

abbrev thumbnail : Identity
thumbnail = record {
  asset_id = 7;
  kind = "thumbnail";
  variant = "edge-256";
  source_mtime_ns = 100;
  source_size = 5000;
}

abbrev preview : Identity
preview = record thumbnail { kind = "preview" }

abbrev thumbnail_row : Derivative
thumbnail_row = record {
  id = 1;
  identity = thumbnail;
  format = "webp";
  quality = 80;
  max_long_edge = 256;
  status = Status.ready;
  cache_path = some "/cache/a.webp";
  byte_size = some 900;
  last_accessed_at = none;
  attempts = 1;
  last_error = none;
  created_at = 10;
}

abbrev preview_row : Derivative
preview_row = record thumbnail_row {
  id = 2;
  identity = preview;
  status = Status.evicted;
  cache_path = some "/cache/b.webp";
}

abbrev catalog : Catalog
catalog = record {
  derivatives = preview_row ∷ thumbnail_row ∷ [];
  jobs = [];
  next_derivative = 3;
  next_job = 1;
  assets = [];
  now = 20;
}

catalog-IsKeyed : IsKeyed catalog
catalog-IsKeyed = omega arith

abbrev thumbnail_request : Request
thumbnail_request = record {
  identity = thumbnail;
  max_long_edge = 256;
  quality = 80;
  format = "webp";
  priority = 3;
  retry_failed = false;
  deferrable = true;
  reconsider_deferred_capacity = false;
  estimated_bytes = some 1000;
}

coalesce-ledger_exact_example :
    (x y : Coalesced) × (coalesce (λ p. false) 1500 thumbnail_request catalog (some unloaded)
      ≡ some x)
    × (coalesce (λ p. false) 1500 thumbnail_request catalog none ≡ some y)
    × SameAs x y
coalesce-ledger_exact_example =
    coalesce-ledger_exact (λ p. false) 1500 thumbnail_request catalog unloaded catalog-IsKeyed
      (inl (refl, refl))
