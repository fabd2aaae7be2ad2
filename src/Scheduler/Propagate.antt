-- ===== src/Scheduler/Propagate.antt =====
-- `_propagate_blocked` blocks exactly the pending nodes downstream of the node that it starts from.
pub mod Scan
pub mod Loop
