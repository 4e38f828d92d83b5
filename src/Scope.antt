-- ===== src/Scope.antt =====
-- The scopes of a search: backend/search_scope.py, and the exclusions of backend/files.py that it asks.
mod Excluded
mod World
mod Resolve
mod Picks
mod Authorized
mod ById
mod Scenarios
