-- ===== src/Paths.antt =====
-- Catalog paths: backend/metadata_store/path_utils.py, and the scopes that backend/search_scope.py
-- resolves with them.
pub mod Normal
pub mod Containment
mod Components
mod Canonical
mod Prefix
mod ScopeSql
mod Order
mod Natural
mod Collation
mod Transitive
mod Split
mod Sorted
mod SortScenarios
mod Scenarios
