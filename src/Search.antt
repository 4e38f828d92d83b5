-- ===== src/Search.antt =====
-- Fielded search: backend/fielded_search_parser.py, from the query text to SQL conditions with their
-- parameters.
pub mod Chars
mod Pattern
mod Reader
mod Parse
pub mod Values
pub mod Like
mod Builder
mod Handlers
pub mod Standard
mod Build
mod Total
mod Names
mod RoundTrip
mod Fragments
mod Bound
mod Checks
mod Placeholders
mod Scenarios
pub mod LikeScenarios
