-- ===== src/Correlate.antt =====
-- apps/backend/src/imports/correlation: which imported records are one identity. `Keys` to `Groups`
-- model the code, `Partition` and `Strong` are about the groups that it makes.
pub mod Keys
pub mod Conflicts
pub mod Groups
pub mod Results
mod Indexes
mod Partition
mod Strong
mod Tests
