-- ===== src/Risk.antt =====
-- The risk findings (apps/backend/src/risk).
pub mod Types
pub mod Repository
pub mod Lookup
pub mod Reconcile
pub mod Scan
pub mod Detected
pub mod Listing
pub mod Ranking
pub mod Runs
mod Tests
