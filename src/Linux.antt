-- ===== src/Linux.antt =====
-- apps/frontend/src/services/linuxGraphAdapter.ts: what the page of the Linux hosts reads out of
-- the graph. `Graph` to `Filtering` model the functions, the other modules are about them.
pub mod Graph
pub mod Host
pub mod Policies
pub mod Users
pub mod Directory
pub mod Effective
pub mod Depends
pub mod Hazards
pub mod Detail
pub mod Filtering
mod Pushed
mod Members
mod Same
mod SameLogins
mod Pure
mod Calls
mod Viewed
mod Ageless
mod Selected
mod Listed
mod Needed
mod Dependency
mod Granted
mod Rights
mod Criteria
mod Tests
