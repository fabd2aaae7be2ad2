-- ===== src/Verifier/Root/Reports.antt =====
-- The coverage report and the result of c4harness/verifier/root.py, and the names of its templates.
use c4harness.Base.{String, Bool, List, [], ◌∷◌, string_eq}
use c4harness.Core.Types.{RequirementKind}

pub record RequirementCoverageEntry : Type 0 where
  pub requirement_id : String
  pub required : Bool
  pub kind : RequirementKind
  pub covered : Bool
  pub covering_nodes : List String
  pub accepted_covering_nodes : List String

pub record CriterionCoverage : Type 0 where
  pub criterion_id : String
  pub description : String
  pub check : String
  pub status : String
  pub contributing_nodes : List String
  pub uncovered_requirement_refs : List String
  pub issues : List String

pub record CoverageReport : Type 0 where
  pub requirement_coverage : List RequirementCoverageEntry
  pub criterion_coverage : List CriterionCoverage
  pub constraint_preservation : List String
  pub artifact_conflicts : List String
  pub self_report_only_claims : List String

abbrev pub empty_report : CoverageReport
empty_report = record {
  requirement_coverage = [];
  criterion_coverage = [];
  constraint_preservation = [];
  artifact_conflicts = [];
  self_report_only_claims = [];
}

pub record RootVerificationResult : Type 0 where
  pub accepted : Bool
  pub confidence : String
  pub issues : List String
  pub memory_facts : List String
  pub coverage_report : CoverageReport

abbrev pub deterministic_check_names : List String
deterministic_check_names =
    "file_exists" ∷ "file_contains" ∷ "command_exit_zero" ∷ "output_matches" ∷ "tests_pass"
    ∷ "json_schema_valid" ∷ "changed_paths_within_allowlist" ∷ "patch_non_empty"
    ∷ "requirement_coverage" ∷ []
