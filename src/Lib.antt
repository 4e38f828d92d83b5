-- ===== src/Lib.antt =====
-- A verification library for the backend of the gallery: the parts of it that keep shared state right
-- while many threads work on one catalog, the parser of its search, and the paths that a search may see.
--
-- The program. Requests, scans and background workers change one SQLite catalog. Every write goes
-- through one writer thread (backend/metadata_store/db_writer.py), which groups the ops of its callers
-- into transactions; each write holds the producer side of a gate that destructive maintenance takes for
-- itself (backend/catalog_maintenance_gate.py); and the scheduler of image derivatives
-- (backend/derivative_scheduler) creates and repairs its rows and jobs inside such a transaction, under
-- a quota of bytes. Triggers in the same transactions keep counters of the rows
-- (backend/metadata_store/runtime_counters.py), which status requests read. A search is limited to a
-- scope (backend/search_scope.py), whose folder must lie in a registered root by the rules of
-- backend/metadata_store/path_utils.py, and its text is parsed into SQL conditions with parameters
-- (backend/fielded_search_parser.py).
--
-- The files.
--   Base: names and lemmas that all share: Boolean tests on the native numbers, lists measured by them; Text
--     and Int have texts as lists of code points and signed integers.
--   Gate: the module globals are the record Gate.Defs.Gate and each locked section of
--     catalog_maintenance_gate.py is a function on it. Gate.Sections lets threads open and close
--     sections in any order; Gate.Shape has the invariant, Gate.Exclusion its proof, Gate.Progress
--     the theorems.
--   Derivatives: Catalog has the tables asset_derivatives and derivative_jobs as lists of rows with the
--     queries that are run on them, Ledger the CapacityLedger and the capacity check of capacity.py,
--     Coalesce the whole of _coalesce_derivative_job of scheduling.py, and Evict _reserve_capacity of
--     capacity.py. Claims and its child Fence have the claims of execution.py with the writes that a
--     token fences, Recovery the recovery of abandoned claims of recovery.py, and Terminal its end of
--     queued jobs; Supersede is the retirement of supersede.py. The other children of each have the
--     proofs: Coalesce.LedgerExact follows the ledger, Evict.Evicted what is evicted, Claims.Stale,
--     Once and Ended a claim that has ended, Claims.Attempts, Limit and Bounded how often a job is tried.
--   Writer: Ops has ops, futures and lanes (_Op, _settle, _pop_locked, _requeue_unrun), Batch one run of
--     _run_batch with _attempt, savepoints, retries and what the futures get, Lifecycle submit, cancel,
--     start, stop, abort and the end of the thread. Serial says what the ops of a batch do one after
--     the other; Atomic, Durable and Results compare a batch with that; Covered, Settled, Held, Dropped
--     and Answered follow an op from submit to its answer; Order says which ops a batch takes.
--   Counters: Tables has the counted rows and compute_counters of
--     backend/metadata_store/runtime_counters.py, Triggers the statements on these rows with the
--     triggers of _schema_ddl.py, Reads the readers, verify_runtime_counters and
--     _ensure_runtime_counters of _schema_ensure.py. Bumps, Rows and Kept follow the counters through
--     the triggers; Upserts, Repair and Backfill compare what is read and repaired with the tables.
--   Search: Chars, Pattern, Reader and Parse are parse_fielded_query of
--     backend/fielded_search_parser.py with its pattern, the text from the cursor on being the state;
--     Values has LIKE patterns, OR groups and numbers, Builder the _ConditionBuilder, Handlers and
--     Standard the handlers, Build build_fielded_conditions. Total is about the loop of the parser,
--     Names and RoundTrip about quoting, Like about escaping, Fragments, Bound, Checks and Placeholders
--     about the placeholders of the conditions.
--   Paths: Normal has normpath and Path.parts on POSIX, Containment the canonical form, the containment
--     and the SQL scope of backend/metadata_store/path_utils.py; Components, Canonical and Prefix are
--     about normal paths as lists of components, ScopeSql compares the SQL scope with containment,
--     and Order compares containments with one another. Natural is the natural sort of
--     path_utils.py; Collation, Transitive, Split and Sorted are about it as a collation.
--   Scope: Excluded has is_index_excluded_path of backend/files.py, World the data and failures of
--     backend/search_scope.py, Resolve its two functions that resolve a scope; Picks, Authorized and ById are about them.
--
-- What is given from outside. An op is a function of the database, which returns, raises, or ends the
-- transaction by itself. SQLite's errors at BEGIN IMMEDIATE and COMMIT are a function of the attempt,
-- the time left to pull ops is a number, a deadline that has passed is a Boolean, and is_file and stat
-- are functions of the path. A claim token is a string; a theorem that needs tokens to differ says so.
-- The Unicode tables beyond ASCII, floats, json.dumps and NFKC are parameters of the search, and so is
-- SQLite's LIKE, by its documented rules; NFC, Path.resolve, wcmatch's globmatch and the
-- tables of digits and of lower case are parameters of the paths and scopes. Nothing else is
-- assumed about them unless a theorem names it. Rows have increasing keys and one row for an identity,
-- as the UNIQUE and AUTOINCREMENT columns of the schema demand.
--
-- Bounds. The loops are recursion on a list, on the number of ops that the time lets in, or on the
-- retries that are left, which is the length of the retry delays. The loop of the query parser has
-- fuel, one more than the characters of the query, which is enough as each round consumes one, and so has
-- the text of a number in the natural sort, one more than the number, which each round divides by
-- ten. Numbers are natural numbers, as Python's are unbounded; the counters that the code could take below 0, the
-- gate's producers and those of the runtime counters, are integers.
--
-- Not modelled: ops submitted from the writer thread itself, writes without a writer thread, an error of
-- SQLite inside a savepoint statement, and the reopening of the connection; a submission that falls
-- into a running batch counts as before the pull that can take it, and an abort or a stop that gives up
-- falls between two batches or into the first attempt of one. The reconciliation loop and the
-- rendering of the scheduler, the stores, the SELECT around the conditions of a search, the branches of
-- the paths for Windows, the scans and the HTTP routes are left out. The parser's fallback for an
-- exception while it writes the full-text condition is left out too, since nothing there raises.
pub mod Base
pub mod Counters
pub mod Derivatives
pub mod Gate
pub mod Paths
pub mod Scope
pub mod Search
pub mod Writer
