-- ===== src/Integrator.antt =====
-- c4harness/integrator: the workspace that all the nodes of a graph share, and the patches to it.
pub mod Workspace
pub mod Patches
pub mod Diffs
pub mod Conflicts
pub mod Sessions
