-- ===== src/Writer.antt =====
-- backend/metadata_store/db_writer.py: one thread, one connection, batched transactions.
pub mod Ops
pub mod Batch
pub mod Serial
pub mod Atomic
pub mod Durable
pub mod Lifecycle
pub mod Results
pub mod Dropped
pub mod Answered
pub mod Covered
pub mod Settled
pub mod Held
pub mod Order
mod Scenarios
