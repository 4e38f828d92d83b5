-- ===== src/Counters.antt =====
-- The runtime counters of backend/metadata_store/runtime_counters.py, the triggers of _schema_ddl.py
-- that maintain them, and _ensure_runtime_counters of _schema_ensure.py.
mod Tables
mod Triggers
mod Reads
mod Bumps
mod Rows
mod Upserts
mod Kept
mod Repair
mod Backfill
mod Scenarios
