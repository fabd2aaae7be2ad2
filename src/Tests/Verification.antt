-- ===== src/Tests/Verification.antt =====
-- Tests of the phases of verification and of the root verifier.
use c4harness.Base.{
  Nodup, ◌≤◌, length, any, values, keys, filter, sorted, insert_sorted, to_set, text_before, ◌≡◌,
  ◌↔◌, ◌⊎◌, refl, String, Bool, true, false, none, some, [], ◌∷◌, Dict, lookup, has_key, contains,
  all, All, string_eq,
}
use c4harness.Core.Types.{
  deliverables, is_blank, is_verifiable, required_ids, is_nonempty, Requirement, deliverable,
  AcceptanceCriterion, TaskNodeContract, VerificationContract, InteractionMode, ExecutionShape,
}
use c4harness.Core.Graph.{validate, requirement_coverage, flat, DecompositionPlan}
use c4harness.Core.Errors.{ok}
use c4harness.Core.Acyclic.Outgoing.{ends_known}
use c4harness.Core.Acyclic.Decides.{IsAcyclic}
use c4harness.Core.Plans.{IsSubset, IsCheckable, ledger_ids, root_refs, validate_iff}
use c4harness.Decompose.{assess_shape, needs_write, private_external, check_atomicity}
use c4harness.Decompose.Shape.{assess_shape_iff, check_atomicity_iff}
use c4harness.Core.Contracts.{VerificationResult}
use c4harness.Scheduler.{
  is_failed, all_succeeded, result_is_terminal, outcomes_final, result_is_terminal, all_succeeded,
  GraphResult, NodeOutcome, succeeded, is_succeeded, has_failures, is_incomplete, deadlock_detected,
}
use c4harness.Verifier.Phases.{combine_phase_results, contract_for_phase}
use c4harness.Verifier.Phases.Combined.{
  IsProposalCheck, passes, combine_phase_results_accepted, contract_for_phase_shares,
}
use c4harness.Verifier.Root.{
  check_graph_health, find_missing_verifications, is_accepted_node, report_of, issues_of, conclude,
  check_requirement_coverage, requirement_entry, check_criterion_traceability, criterion_entry,
  evaluate_criterion, evaluate_semantic_criterion, check_constraints, detect_artifact_conflicts,
  detect_self_report_claims, self_reported, evidence_paths, conclude, issues_of, report_of,
  is_accepted_node, find_missing_verifications, check_graph_health, verify, referring,
  compute_accepted_nodes, is_semantic_check,
}
use c4harness.Verifier.Root.Accepted.{IsAccepted, IsReferring}
use c4harness.Verifier.Root.Sound.{verify_sound}
use c4harness.Tests.Fixtures.{node, graph_of, some_checks}

abbrev good : VerificationResult
good = record {
  accepted = true;
  confidence = "high";
  issues = [];
  memory_facts = [];
  failures = [];
}

combine_phase_results_accepted_example :
    ((combine_phase_results (good ∷ good ∷ [])).accepted ≡ true)
    ↔ (all passes (good ∷ good ∷ []) ≡ true)
combine_phase_results_accepted_example = combine_phase_results_accepted (good ∷ good ∷ [])

abbrev two_checks : VerificationContract
two_checks = record some_checks {
  deterministic_checks = "patch_non_empty" ∷ "tests_pass:pytest" ∷ [];
}

contract_for_phase_shares_example :
    ((contains (contract_for_phase two_checks true).deterministic_checks "tests_pass:pytest" ≡ true)
      ↔ ((contains two_checks.deterministic_checks "tests_pass:pytest" ≡ true)
          × IsProposalCheck "tests_pass:pytest"))
    × ((contains (contract_for_phase two_checks false).deterministic_checks "tests_pass:pytest"
          ≡ true)
        ↔ ((contains two_checks.deterministic_checks "tests_pass:pytest" ≡ true)
            × (¬ IsProposalCheck "tests_pass:pytest")))
    × ((contract_for_phase two_checks true).evidence_requirements ≡ [])
    × ((contract_for_phase two_checks true).semantic_check ≡ none)
    × ((contract_for_phase two_checks false).evidence_requirements
        ≡ two_checks.evidence_requirements)
    × ((contract_for_phase two_checks false).semantic_check ≡ two_checks.semantic_check)
contract_for_phase_shares_example = contract_for_phase_shares two_checks "tests_pass:pytest"

abbrev the_requirement : Requirement
the_requirement = record { id = "r1"; text = "do it"; kind = deliverable; required = true }

abbrev the_criterion : AcceptanceCriterion
the_criterion = record {
  id = "c1";
  description = "looks right";
  check = "review";
  requirement_refs = "r1" ∷ [];
}

abbrev worker_node : TaskNodeContract
worker_node = record (node "a" "src/a.py") { requirement_refs = "r1" ∷ [] }

abbrev the_plan : DecompositionPlan
the_plan = record {
  situation = record {
    task_id = "t";
    objective = "do it";
    repo = "/repo";
    requirements = record { items = the_requirement ∷ [] };
    root_contract = record {
      criteria = the_criterion ∷ [];
      merge_strategy = "orchestrator_review";
    };
    interaction_mode = InteractionMode.execute;
    active_skills = [];
    skill_steps = [];
    constraints = [];
    environment_facts = [];
    unresolved_questions = [];
    available_worker_ids = [];
    historical_profile_summary = [];
    security_context = [];
  };
  shape = ExecutionShape.graph;
  graph = graph_of (worker_node ∷ []) [];
  reasons = [];
}

abbrev the_result : GraphResult String
the_result = record {
  node_outcomes =
      ("a", record { node_id = "a"; state = succeeded; error = none; result = some "done" }) ∷ [];
  execution_order = "a" ∷ [];
}

abbrev the_verifications : Dict String VerificationResult
the_verifications = ("a", good) ∷ []

abbrev approved : Dict String Bool
approved = ("c1", true) ∷ []

accepts : (verify the_plan the_result the_verifications [] approved).accepted ≡ true
unfolding verify check_graph_health find_missing_verifications compute_accepted_nodes
    is_accepted_node report_of issues_of conclude has_failures is_incomplete deadlock_detected
    all_succeeded result_is_terminal any all values keys filter lookup has_key contains sorted
    insert_sorted string_eq check_requirement_coverage requirement_entry referring
    check_criterion_traceability criterion_entry evaluate_criterion is_semantic_check
    evaluate_semantic_criterion check_constraints detect_artifact_conflicts
    detect_self_report_claims self_reported evidence_paths flat to_set text_before outcomes_final
accepts = refl

distinct_nodes : Nodup (keys the_plan.graph.nodes)
unfolding keys contains string_eq
distinct_nodes = (refl, tt)

distinct_verifications : Nodup (keys the_verifications)
unfolding keys contains string_eq
distinct_verifications = (refl, tt)

verify_sound_example :
    ((nid : String) (o : NodeOutcome String)
      → lookup nid the_result.node_outcomes ≡ some o
      → (is_failed o.state ≡ false)
        × (result_is_terminal the_result ≡ true → is_succeeded o.state ≡ true)
        × (is_succeeded o.state ≡ true → has_key nid the_verifications ≡ true))
    × All
        (λ (r : Requirement).
          (r.required ≡ true)
          → (nid : String) × IsReferring the_plan.graph r.id nid
            × IsAccepted the_result the_verifications nid)
        the_plan.situation.requirements.items
    × All
        (λ c. (is_semantic_check c.check ≡ true) → lookup c.id approved ≡ some true)
        the_plan.situation.root_contract.criteria
verify_sound_example =
    verify_sound the_plan the_result the_verifications [] approved distinct_nodes
      distinct_verifications accepts

the_plan-ends : ends_known the_plan.graph ≡ true
unfolding ends_known all
the_plan-ends = refl

validate_iff_example : (validate the_plan ≡ ok tt) ↔ (
    (is_nonempty the_plan.graph.nodes ≡ true)
    × IsAcyclic the_plan.graph
    × IsSubset (requirement_coverage the_plan.graph) (ledger_ids the_plan)
    × IsSubset (root_refs the_plan) (ledger_ids the_plan)
    × IsSubset (required_ids the_plan.situation.requirements) (requirement_coverage the_plan.graph)
    × IsCheckable (values the_plan.graph.nodes))
validate_iff_example = validate_iff the_plan the_plan-ends

assess_shape_iff_example :
    (((assess_shape the_plan.situation).shape ≡ ExecutionShape.graph) ↔ (
      (2 ≤ length the_plan.situation.skill_steps)
      ⊎ ((2 ≤ length (deliverables the_plan.situation.requirements))
          ⊎ ((is_nonempty the_plan.situation.unresolved_questions ≡ true)
              ⊎ (((needs_write the_plan.situation ≡ true)
                    × (2 ≤ length the_plan.situation.available_worker_ids))
                  ⊎ (private_external the_plan.situation ≡ true))))))
    × (((assess_shape the_plan.situation).shape ≡ ExecutionShape.graph)
        ↔ (1 ≤ (assess_shape the_plan.situation).score))
assess_shape_iff_example = assess_shape_iff the_plan.situation

check_atomicity_iff_example : ((check_atomicity worker_node 1 false).atomic ≡ true) ↔ (
    (length worker_node.requirement_refs ≤ 1)
    × (is_blank worker_node.objective ≡ false)
    × (is_verifiable worker_node.verification ≡ true)
    × (1 ≤ 1)
    × (false ≡ false))
check_atomicity_iff_example = check_atomicity_iff worker_node 1 false
