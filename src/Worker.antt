-- ===== src/Worker.antt =====
-- The worker of the import queue (apps/backend/src/imports/import-worker.service.ts).
pub mod Ticks
pub mod Bounds
mod Tests
