-- ===== src/Verifier.antt =====
-- c4harness/verifier: what joins the results of the phases of a node, and the root verifier.
pub mod Phases
pub mod Root
