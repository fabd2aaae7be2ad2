-- ===== src/Verifier/Phases.antt =====
-- c4harness/verifier/phases.py. `execute_checks` runs commands and reads files, and is no part of the model.
pub mod Combined
use Prim.Native.String.{◌++◌ as ◌<>◌}
use c4harness.Base.{
  String, Bool, true, false, not, ◌&&◌, ◌||◌, Option, none, some, List, [], ◌∷◌, any, all, filter,
  map, contains, text_before, ◌==◌, string_eq, if◌then◌else◌,
}
use c4harness.Core.Types.{VerificationContract, is_nonempty}
use c4harness.Core.Graph.{flat}
use c4harness.Core.Contracts.{FailureRecord, VerificationResult, worker, policy_permission}

abbrev pub proposal_checks : List String
proposal_checks = "changed_paths_within_allowlist" ∷ "patch_non_empty" ∷ "requirement_coverage" ∷ []

-- `_name(expression) in PROPOSAL_CHECKS`
unfoldable pub is_proposal_check : String → Bool
is_proposal_check expression = contains proposal_checks (text_before b':' expression)

unfoldable pub contract_for_phase : VerificationContract → Bool → VerificationContract
unfolding is_proposal_check
contract_for_phase c proposal = record {
  deterministic_checks =
      filter (λ e. if proposal then is_proposal_check e else not (is_proposal_check e))
        c.deterministic_checks;
  evidence_requirements = if proposal then [] else c.evidence_requirements;
  semantic_check = if proposal then none else c.semantic_check;
  root_contribution = c.root_contribution;
}

-- `_precheck` of a result with the given status and policy violations. `repr` is Python's, of a text.
unfoldable pub precheck : (String → String) → String → List String → Option VerificationResult
precheck repr status violations =
    let message = "Worker execution status is " <> repr status <> ", not 'success'." in
    if not (status == "success")
    then some (record {
      accepted = false;
      confidence = "low";
      issues = message ∷ [];
      memory_facts = [];
      failures =
          record {
            category = worker;
            code = "worker:" <> status;
            message = message;
            phase_or_check = "precheck";
            retryable = true;
            blame = "worker";
          }
          ∷ [];
    })
    else if is_nonempty violations
    then some (record {
      accepted = false;
      confidence = "blocked";
      issues = violations;
      memory_facts = [];
      failures =
          map
            (λ issue. record {
              category = policy_permission;
              code = "policy:violation";
              message = issue;
              phase_or_check = "policy_precheck";
              retryable = false;
              blame = "policy_permission";
            })
            violations;
    })
    else none

-- The last arguments that every result of `combine_phase_results` gets.
abbrev pub merged : List VerificationResult → Bool → String → VerificationResult
merged results accepted confidence = record {
  accepted = accepted;
  confidence = confidence;
  issues = flat (map (λ (r : VerificationResult). r.issues) results);
  memory_facts = flat (map (λ (r : VerificationResult). r.memory_facts) results);
  failures = flat (map (λ (r : VerificationResult). r.failures) results);
}

abbrev pub is_blocking : VerificationResult → Bool
is_blocking r = r.confidence == "blocked"

abbrev pub is_rejecting : VerificationResult → Bool
is_rejecting r = not r.accepted && not (r.confidence == "inconclusive")

abbrev pub is_doubtful : VerificationResult → Bool
is_doubtful r = not r.accepted || r.confidence == "inconclusive"

unfoldable pub combine_phase_results : List VerificationResult → VerificationResult
combine_phase_results results =
    if not (is_nonempty results)
    then record {
      accepted = true;
      confidence = "medium";
      issues = [];
      memory_facts = [];
      failures = [];
    }
    else if any is_blocking results
    then merged results false "blocked"
    else if any is_rejecting results
    then merged results false "low"
    else if any is_doubtful results
    then merged results false "inconclusive"
    else if all (λ r. r.confidence == "high") results
    then merged results true "high"
    else merged results true "medium"
