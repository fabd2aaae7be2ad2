-- ===== src/Core/Acyclic.antt =====
-- The depth-first search of `validate_acyclic` decides whether the graph has a cycle.
pub mod Search
pub mod Outgoing
pub mod Decides
pub mod Edges
