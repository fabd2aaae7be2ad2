-- ===== src/Decompose/Shape.antt =====
-- When a task becomes a graph, and when a node is atomic.
use c4harness.Base.{ℕ, ◌≤◌, ◌≡◌, ◌↔◌, ◌⊎◌, Bool, true, false, length, arith}
use c4harness.Core.Types.{
  TaskSituation, TaskNodeContract, graph, deliverables, is_nonempty, is_blank, is_verifiable,
}
use c4harness.Decompose.{
  choose_primary_split, workflow_split, deliverable_split, evidence_split, capability_split,
  risk_split, needs_write, private_external, assess_shape, check_atomicity, atomicity_reasons,
}

-- A task becomes a graph exactly if its workflow has at least two steps, or it has at least two
-- deliverables, or an unresolved question, or it needs to write and has at least two workers, or it is
-- private and may go to an external worker. Its score is positive exactly then.
pub assess_shape_iff :
    (s : TaskSituation)
    → (((assess_shape s).shape ≡ graph) ↔ (
        (2 ≤ length s.skill_steps)
        ⊎ ((2 ≤ length (deliverables s.requirements))
            ⊎ ((is_nonempty s.unresolved_questions ≡ true)
                ⊎ (((needs_write s ≡ true) × (2 ≤ length s.available_worker_ids))
                    ⊎ (private_external s ≡ true))))))
      × (((assess_shape s).shape ≡ graph) ↔ (1 ≤ (assess_shape s).score))
unfolding assess_shape choose_primary_split workflow_split deliverable_split evidence_split
    capability_split risk_split
assess_shape_iff s = ground arith

-- A node is atomic exactly if it covers at most one requirement, its objective is not blank, its
-- contract can be verified, a worker is eligible, and merging is not too costly.
pub check_atomicity_iff :
    (n : TaskNodeContract) (eligible_worker_count : ℕ) (merge_cost_high : Bool)
    → ((check_atomicity n eligible_worker_count merge_cost_high).atomic ≡ true) ↔ (
        (length n.requirement_refs ≤ 1)
        × (is_blank n.objective ≡ false)
        × (is_verifiable n.verification ≡ true)
        × (1 ≤ eligible_worker_count)
        × (merge_cost_high ≡ false))
unfolding check_atomicity atomicity_reasons
check_atomicity_iff n count high = ground arith
