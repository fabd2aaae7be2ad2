-- ===== src/Tests/History.antt =====
-- Tests of the history of executions.
use c4harness.Base.{◌≡◌, ◌↔◌, refl, String, Bool, true, false, Option, none, some, List, [], ◌∷◌}
use c4harness.Core.Contracts.{VerificationResult, WorkerResult}
use c4harness.History.{ExecutionOutcome, success, blocked, no_failure, is_excluded}
use c4harness.History.Attribution.{Execution, attribute_outcome, file_not_found_error}
use c4harness.History.Attribution.Fair.{
  Succeeds, attribute_outcome_success_iff, attribute_outcome_fair,
}
use c4harness.History.Profiles.{bucket_of, count_outcomes}
use c4harness.History.Profiles.Counts.{
  tally, is_left_out, is_success, is_failure, is_undecided, count_outcomes_correct,
}

abbrev execution : Execution
execution = record {
  task_id = "t";
  node_id = "n";
  worker_arm_id = some "w";
  capability_dimensions = "python" ∷ [];
  artifact_refs = [];
  latency_ms = some 5;
}

abbrev worker_result : WorkerResult
worker_result = record {
  status = "success";
  changed_paths = "a.txt" ∷ [];
  policy_violations = [];
  token_usage = record { input_tokens = some 1; output_tokens = some 2; total_tokens = some 3 };
}

abbrev acceptance : VerificationResult
acceptance = record {
  accepted = true;
  confidence = "high";
  issues = [];
  memory_facts = [];
  failures = [];
}

same : String → String
same text = text

accepted_outcome :
    (attribute_outcome same execution (some worker_result) (some acceptance) none).status ≡ success
unfolding attribute_outcome c4harness.Base.string_eq
accepted_outcome = refl

attribute_outcome_success_iff_example :
    ((attribute_outcome same execution (some worker_result) (some acceptance) none).status
      ≡ success)
    ↔ Succeeds (some worker_result) (some acceptance) none
attribute_outcome_success_iff_example =
    attribute_outcome_success_iff same execution (some worker_result) (some acceptance) none

attribute_outcome_fair_example :
    (((attribute_outcome same execution none none (some file_not_found_error)).status ≡ blocked
        → is_excluded
            (attribute_outcome same execution none none
              (some file_not_found_error)).failure_attribution
          ≡ true)
      × ((attribute_outcome same execution none none (some file_not_found_error)).status ≡ success
          → (attribute_outcome same execution none none
              (some file_not_found_error)).failure_attribution
            ≡ no_failure))
attribute_outcome_fair_example =
    attribute_outcome_fair same execution none none (some file_not_found_error)

abbrev outcomes : List ExecutionOutcome
outcomes =
    attribute_outcome same execution (some worker_result) (some acceptance) none
    ∷ attribute_outcome same execution none none (some file_not_found_error)
    ∷ []

count_outcomes_correct_example :
    (((bucket_of "python" (count_outcomes "w" outcomes [])).excluded
        ≡ tally is_left_out "w" "python" outcomes)
      × ((bucket_of "python" (count_outcomes "w" outcomes [])).successes
          ≡ tally is_success "w" "python" outcomes)
      × ((bucket_of "python" (count_outcomes "w" outcomes [])).failures
          ≡ tally is_failure "w" "python" outcomes)
      × ((bucket_of "python" (count_outcomes "w" outcomes [])).inconclusives
          ≡ tally is_undecided "w" "python" outcomes))
count_outcomes_correct_example = count_outcomes_correct "w" outcomes "python"
