-- ===== src/History.antt =====
-- c4harness/history/contracts.py: the outcomes of executions. `recorded_at`, which is the time, is left out.
pub mod Attribution
pub mod Profiles
use c4harness.Base.{ℕ, ◌+◌, String, Bool, true, false, Option, List}

pub data OutcomeStatus : Type 0 where
  success failed inconclusive blocked cancelled : OutcomeStatus

-- `NONE` is `no_failure`.
pub data FailureAttribution : Type 0 where
  no_failure worker_error decomposition_error assignment_error missing_context
        verification_inconclusive environment_failure permission_blocked consent_scope_changed
        integration_conflict :
      FailureAttribution

pub record ExecutionOutcome : Type 0 where
  pub task_id : String
  pub node_id : String
  pub worker_arm_id : Option String
  pub status : OutcomeStatus
  pub capability_dimensions : List String
  pub verification_status : Option String
  pub failure_attribution : FailureAttribution
  pub input_tokens : Option ℕ
  pub output_tokens : Option ℕ
  pub total_tokens : Option ℕ
  pub latency_ms : Option ℕ
  pub artifact_refs : List String

pub record CapabilityEvidence : Type 0 where
  pub worker_arm_id : String
  pub capability_dimension : String
  pub verified_successes : ℕ
  pub verified_failures : ℕ
  pub inconclusive_count : ℕ
  pub excluded_count : ℕ
  pub total_tokens : ℕ
  pub total_latency_ms : ℕ

unfoldable pub usable_sample_count : CapabilityEvidence → ℕ
usable_sample_count e = e.verified_successes + e.verified_failures

-- `_EXCLUDED_ATTRIBUTIONS` of c4harness/history/profiles.py
abbrev pub is_excluded : FailureAttribution → Bool
is_excluded environment_failure = true
is_excluded permission_blocked = true
is_excluded consent_scope_changed = true
is_excluded missing_context = true
is_excluded decomposition_error = true
is_excluded assignment_error = true
is_excluded integration_conflict = true
is_excluded no_failure = false
is_excluded worker_error = false
is_excluded verification_inconclusive = false
