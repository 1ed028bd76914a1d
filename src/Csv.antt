-- ===== src/Csv.antt =====
-- The parser of CSV files (apps/backend/src/imports/parsers/csv-parser.ts).
pub mod Line
pub mod RoundTrip
pub mod Sheet
pub mod Counts
pub mod Parsed
mod Tests
