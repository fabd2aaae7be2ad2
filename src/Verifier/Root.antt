-- ===== src/Verifier/Root.antt =====
-- `RootVerifier.verify` of c4harness/verifier/root.py. A Python set is a list without duplicates; what the
-- source sorts is sorted here, and the order of the other sets shows in no result.
mod Reports
mod Checks
pub mod Accepted
pub mod Sound
unfoldable pub use Reports.*
unfoldable pub use Checks.*
use Prim.Native.String.{◌++◌ as ◌<>◌}
use c4harness.Base.{
  String, Bool, true, false, not, ◌&&◌, List, [], ◌∷◌, ◌++◌, Dict, filter, map, sorted, ◌==◌,
  string_eq, if◌then◌else◌,
}
use c4harness.Core.Types.{is_nonempty}
use c4harness.Core.Graph.{DecompositionPlan, join, join_semicolon}
use c4harness.Core.Contracts.{VerificationResult, Evidence}
use c4harness.Scheduler.{GraphResult}

abbrev pub with_status : String → List CriterionCoverage → List String
with_status status entries = map (λ c. c.criterion_id) (filter (λ c. c.status == status) entries)

-- The last step of `verify`: acceptance and confidence.
unfoldable pub conclude : List String → List String → CoverageReport → RootVerificationResult
conclude issues inconclusive coverage =
    if is_nonempty issues
    then record {
      accepted = false;
      confidence = "low";
      issues = issues;
      memory_facts = [];
      coverage_report = coverage;
    }
    else if is_nonempty inconclusive
    then record {
      accepted = false;
      confidence = "inconclusive";
      issues =
          ("Inconclusive semantic criteria require explicit decision: "
            <> join (sorted inconclusive))
          ∷ [];
      memory_facts = [];
      coverage_report = coverage;
    }
    else if is_nonempty coverage.self_report_only_claims
    then record {
      accepted = false;
      confidence = "inconclusive";
      issues = "Some claims rely only on worker self-report and require reviewer evidence." ∷ [];
      memory_facts = [];
      coverage_report = coverage;
    }
    else record {
      accepted = true;
      confidence = "high";
      issues = [];
      memory_facts =
          "All requirements covered by accepted nodes with verified evidence."
          ∷ "All root contract criteria traced to accepted node contributions." ∷ [];
      coverage_report = coverage;
    }

-- The coverage report of step 9 of `verify`.
unfoldable pub report_of :
    DecompositionPlan
    → List String
    → Dict String (List Evidence)
    → Dict String Bool
    → CoverageReport
unfolding check_requirement_coverage check_criterion_traceability check_constraints
    detect_artifact_conflicts detect_self_report_claims
report_of plan accepted evidence decisions = record {
  requirement_coverage = check_requirement_coverage plan.situation.requirements plan.graph accepted;
  criterion_coverage =
      check_criterion_traceability plan.situation.root_contract plan.graph accepted decisions;
  constraint_preservation = check_constraints plan.situation.requirements plan.graph accepted;
  artifact_conflicts = detect_artifact_conflicts evidence accepted;
  self_report_only_claims = detect_self_report_claims plan.graph accepted;
}

abbrev pub uncovered_required : CoverageReport → List String
uncovered_required r =
    map (λ e. e.requirement_id) (filter (λ e. e.required && not e.covered) r.requirement_coverage)

-- The issues that `verify` has collected before it concludes.
unfoldable pub issues_of : List String → CoverageReport → List String
issues_of missing r =
    issue_if (is_nonempty missing) ("Missing verification for succeeded nodes: " <> join missing)
    ++ (issue_if (is_nonempty (uncovered_required r)) (
          "Required requirements not covered by accepted nodes: "
          <> join (sorted (uncovered_required r)))
        ++ (issue_if (is_nonempty (with_status "uncovered" r.criterion_coverage)) (
              "Root contract criteria not covered: "
              <> join (sorted (with_status "uncovered" r.criterion_coverage)))
            ++ (issue_if (is_nonempty r.artifact_conflicts)
                  ("Artifact conflicts detected: " <> join_semicolon r.artifact_conflicts)
                ++ r.constraint_preservation)))

module _ {R : Type 0} where
  unfoldable pub verify :
      DecompositionPlan
      → GraphResult R
      → Dict String VerificationResult
      → Dict String (List Evidence)
      → Dict String Bool
      → RootVerificationResult
  unfolding check_graph_health find_missing_verifications compute_accepted_nodes report_of issues_of
      conclude
  verify plan g verifications evidence decisions =
      let coverage = report_of plan (compute_accepted_nodes g verifications) evidence decisions in
      if is_nonempty (check_graph_health g)
      then record {
        accepted = false;
        confidence = "blocked";
        issues = check_graph_health g;
        memory_facts = [];
        coverage_report = empty_report;
      }
      else conclude (issues_of (find_missing_verifications g verifications) coverage)
          (with_status "inconclusive" coverage.criterion_coverage) coverage
