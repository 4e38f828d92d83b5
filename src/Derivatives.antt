-- ===== src/Derivatives.antt =====
-- backend/derivative_scheduler: the quota of bytes, coalescing, eviction, and the claims of workers.
pub mod Catalog
pub mod Ledger
pub mod Coalesce
pub mod Evict
pub mod Claims
pub mod Supersede
mod Scenarios
mod ClaimScenarios
mod AttemptScenarios
mod EvictScenarios
