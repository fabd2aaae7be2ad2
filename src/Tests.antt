-- ===== src/Tests.antt =====
-- Concrete runs of the models.
pub mod Fixtures
pub mod Graphs
mod Batches
mod Decisions
mod Verification
pub mod Patches
pub mod Diffs
mod Sessions
mod History
