-- ===== src/History/Attribution.antt =====
-- c4harness/history/attribution.py: what an outcome says of the worker. `str.lower` is a parameter.
pub mod Fair
use c4harness.Base.{
  ℕ, String, Bool, true, false, not, ◌&&◌, ◌||◌, Option, none, some, List, [], ◌∷◌, any, contains,
  has_text, ◌==◌, string_eq, if◌then◌else◌,
}
use c4harness.Core.Types.{is_nonempty}
use c4harness.Core.Contracts.{FailureCategory, FailureRecord, VerificationResult, WorkerResult}
use c4harness.Replan.{check_names}
use c4harness.History.{
  OutcomeStatus, success, failed, inconclusive, blocked, FailureAttribution, ExecutionOutcome,
  no_failure, worker_error, decomposition_error, missing_context, verification_inconclusive,
  environment_failure, permission_blocked, consent_scope_changed, integration_conflict,
}

-- The classes of exceptions that `isinstance` tells apart.
pub data WorkerException : Type 0 where
  permission_error file_not_found_error not_a_directory_error : WorkerException
  -- Another OSError; ConnectionError and TimeoutError are among them.
  os_error : WorkerException
  other_error : WorkerException

unfoldable pub classify_exception : WorkerException → OutcomeStatus × FailureAttribution
classify_exception permission_error = (blocked, permission_blocked)
classify_exception file_not_found_error = (blocked, missing_context)
classify_exception not_a_directory_error = (blocked, missing_context)
classify_exception os_error = (blocked, environment_failure)
classify_exception other_error = (failed, worker_error)

-- Tests of `category in categories`.
abbrev is_deterministic : FailureCategory → Bool
is_deterministic c = elim c [ FailureCategory.deterministic_rejection ↦ true | _ ↦ false ]

abbrev is_policy : FailureCategory → Bool
is_policy c = elim c [ FailureCategory.policy_permission ↦ true | _ ↦ false ]

abbrev is_environment : FailureCategory → Bool
is_environment c = elim c [ FailureCategory.environment ↦ true | _ ↦ false ]

abbrev is_integration : FailureCategory → Bool
is_integration c = elim c [ FailureCategory.integration_conflict ↦ true | _ ↦ false ]

abbrev is_context : FailureCategory → Bool
is_context c = elim c [ FailureCategory.missing_context ↦ true | _ ↦ false ]

abbrev is_contract : FailureCategory → Bool
is_contract c = elim c [ FailureCategory.contract ↦ true | _ ↦ false ]

abbrev is_inconclusive : FailureCategory → Bool
is_inconclusive c = elim c [ FailureCategory.semantic_inconclusive ↦ true | _ ↦ false ]

-- The arguments of `attribute_outcome` that pass through to the outcome.
pub record Execution : Type 0 where
  pub task_id : String
  pub node_id : String
  pub worker_arm_id : Option String
  pub capability_dimensions : List String
  pub artifact_refs : List String
  pub latency_ms : Option ℕ

-- `_build_outcome`
unfoldable pub build_outcome :
    Execution
    → Option WorkerResult
    → OutcomeStatus × FailureAttribution × Option String
    → ExecutionOutcome
build_outcome e result (status, attribution, verification_status) = record {
  task_id = e.task_id;
  node_id = e.node_id;
  worker_arm_id = e.worker_arm_id;
  status = status;
  capability_dimensions = e.capability_dimensions;
  verification_status = verification_status;
  failure_attribution = attribution;
  input_tokens = elim result [ none ↦ none | some r ↦ r.token_usage.input_tokens ];
  output_tokens = elim result [ none ↦ none | some r ↦ r.token_usage.output_tokens ];
  total_tokens = elim result [ none ↦ none | some r ↦ r.token_usage.total_tokens ];
  latency_ms = e.latency_ms;
  artifact_refs =
      if is_nonempty e.artifact_refs
      then e.artifact_refs
      else elim result [ none ↦ [] | some r ↦ r.changed_paths ];
}

module _ (lower : String → String) where
  -- One round of the loop of `_classify_block_reasons`.
  unfoldable pub block_reason : String → Option FailureAttribution
  block_reason issue =
      let text = lower issue in
      if has_text "integration_conflict" text
      then some integration_conflict
      else if has_text "changed_paths_within_allowlist" text
      then some permission_blocked
      else if has_text "file_exists" text
      then some missing_context
      else if has_text "command_exit_zero" text
          && (has_text "timeout" text || has_text "timed out" text)
      then some environment_failure
      else if has_text "consent" text
      then some consent_scope_changed
      else if has_text "permission" text || (has_text "policy" text || has_text "allowlist" text)
      then some permission_blocked
      else if has_text "not found" text || has_text "missing" text
      then some missing_context
      else if has_text "timeout" text || (has_text "environment" text || has_text "connection" text)
      then some environment_failure
      else none

  unfoldable pub classify_block_reasons : List String → FailureAttribution
  unfolding block_reason
  classify_block_reasons [] = environment_failure
  classify_block_reasons (issue ∷ issues) =
      let rest = classify_block_reasons issues in
      elim (block_reason issue) [ none ↦ rest | some attribution ↦ attribution ]

  -- A deterministic rejection that says that a path does not exist.
  unfoldable pub is_missing_path : FailureRecord → Bool
  is_missing_path f =
      is_deterministic f.category
      && ((f.phase_or_check == "file_exists" || f.phase_or_check == "file_contains")
          && has_text "does not exist" (lower f.message))

  unfoldable pub classify_structured_failures :
      VerificationResult → Option (OutcomeStatus × FailureAttribution)
  unfolding is_missing_path
  classify_structured_failures v =
      if any is_missing_path v.failures
      then some (blocked, missing_context)
      else if not (is_nonempty v.failures)
      then none
      else if any (λ f. is_policy f.category) v.failures
      then some (blocked, permission_blocked)
      else if any (λ f. is_environment f.category) v.failures
      then some (blocked, environment_failure)
      else if any (λ f. is_integration f.category) v.failures
      then some (blocked, integration_conflict)
      else if any (λ f. is_context f.category) v.failures
      then some (blocked, missing_context)
      else if any (λ f. is_contract f.category) v.failures
      then some (blocked, decomposition_error)
      else if any (λ f. is_inconclusive f.category) v.failures
      then some (inconclusive, verification_inconclusive)
      else some (failed, worker_error)

  -- The chain under `if verification is not None`.
  unfoldable pub classify_verification : VerificationResult → OutcomeStatus × FailureAttribution
  unfolding classify_structured_failures classify_block_reasons
  classify_verification v =
      let checks = check_names v.issues in
      if v.accepted then (success, no_failure) else elim (classify_structured_failures v) [
        | some structured ↦ structured
        | none ↦
            if v.confidence == "inconclusive"
            then (inconclusive, verification_inconclusive)
            else if v.confidence == "blocked"
            then (blocked, classify_block_reasons v.issues)
            else if contains checks "file_exists" || contains checks "evidence_requirements"
            then (failed, missing_context)
            else if contains checks "integration_conflict"
            then (failed, integration_conflict)
            else (failed, worker_error)
      ]

  -- Which of the branches of `attribute_outcome` is taken: the status, the attribution, and the status of
  -- the verification.
  unfoldable pub attribute :
      Option WorkerResult
      → Option VerificationResult
      → Option WorkerException
      → OutcomeStatus × FailureAttribution × Option String
  unfolding classify_exception classify_verification
  attribute result verification (some e) =
      let (status, attribution) = classify_exception e in (status, attribution, none)
  attribute none verification none = (inconclusive, worker_error, none)
  attribute (some r) verification none =
      if is_nonempty r.policy_violations
      then (blocked, permission_blocked, none)
      else if not (r.status == "success")
      then (failed, worker_error, elim verification [ none ↦ none | some v ↦ some v.confidence ])
      else elim verification [
        | none ↦ (success, no_failure, none)
        | some v ↦
            let (status, attribution) = classify_verification v in
            (status, attribution, some v.confidence)
      ]

  unfoldable pub attribute_outcome :
      Execution
      → Option WorkerResult
      → Option VerificationResult
      → Option WorkerException
      → ExecutionOutcome
  unfolding attribute build_outcome
  attribute_outcome e result verification raised =
      build_outcome e result (attribute result verification raised)
