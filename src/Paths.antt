-- ===== src/Paths.antt =====
-- apps/frontend/src/services/graphInvestigation.ts: the search for a shortest path, which
-- `Search` models, and what a node reaches, which `Blast` models. `Walks` says what a path is, the
-- other modules prove what is found.
pub mod Search
mod Walks
mod Queues
mod Scanned
mod Searching
mod Rounds
mod Found
mod Ends
mod Shortest
pub mod Blast
mod Lockstep
mod Reached
mod Attack
pub mod Closed
pub mod Sample
mod Examples
mod Tests
