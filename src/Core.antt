-- ===== src/Core.antt =====
-- c4harness/core: the task contract graph and what plans are made of.
pub mod Errors
pub mod Types
pub mod Contracts
pub mod Walks
pub mod Graph
pub mod Acyclic
pub mod WellFormed
pub mod Plans
