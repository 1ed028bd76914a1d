-- ===== src/Queue.antt =====
-- The queue of import jobs (apps/backend/src/imports/import-queue.service.ts).
pub mod Types
pub mod Jobs
pub mod Control
pub mod Events
pub mod Rows
pub mod Consistent
pub mod Lease
pub mod Choice
pub mod Stats
pub mod Attempts
pub mod Overwrites
mod Tests
