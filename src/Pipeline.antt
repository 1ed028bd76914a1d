-- ===== src/Pipeline.antt =====
-- The data pipeline: apps/backend/src/pipeline and packages/shared-types.
pub mod Types
pub mod Engine
pub mod Methods
pub mod Step
pub mod Run
pub mod Schedule
pub mod Back
pub mod Hazards
pub mod Failures
pub mod Stages
mod Tests
mod Samples
mod HazardTests
mod ScheduleTests
