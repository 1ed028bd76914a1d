-- ===== src/Limiter.antt =====
-- The rate limiter (apps/backend/src/common/rate-limiter.guard.ts).
pub mod Bucket
pub mod Tokens
pub mod Cleaning
pub mod Rate
mod Tests
