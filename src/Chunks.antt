-- ===== src/Chunks.antt =====
-- The parser that hands a CSV file on in chunks
-- (apps/backend/src/imports/parsers/chunked-parser.ts).
pub mod Parser
pub mod Branches
pub mod Ahead
pub mod Passed
pub mod Chunked
pub mod Resume
mod Tests
