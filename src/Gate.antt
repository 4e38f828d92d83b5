-- ===== src/Gate.antt =====
-- backend/catalog_maintenance_gate.py: the gate itself (Defs), the threads that hold it (Sections), and
-- what every interleaving keeps.
pub mod Defs
pub mod Sections
mod Shape
pub mod Exclusion
pub mod Progress
mod Scenarios
