-- ===== src/Core/Contracts.antt =====
-- The results of c4harness/core/contracts.py that verification and replanning read.
use c4harness.Base.{ℕ, Option, String, Bool, List}

pub data FailureCategory : Type 0 where
  worker missing_context contract policy_permission environment integration_conflict
        deterministic_rejection semantic_inconclusive :
      FailureCategory

pub record FailureRecord : Type 0 where
  pub category : FailureCategory
  pub code : String
  pub message : String
  pub phase_or_check : String
  pub retryable : Bool
  pub blame : String

pub record VerificationResult : Type 0 where
  pub accepted : Bool
  pub confidence : String
  pub issues : List String
  pub memory_facts : List String
  pub failures : List FailureRecord

pub record Evidence : Type 0 where
  pub path : String
  pub observation : String
  pub line : Option ℕ

-- Without `source`.
pub record TokenUsage : Type 0 where
  pub input_tokens : Option ℕ
  pub output_tokens : Option ℕ
  pub total_tokens : Option ℕ

-- The fields that the attribution of outcomes reads.
pub record WorkerResult : Type 0 where
  pub status : String
  pub changed_paths : List String
  pub policy_violations : List String
  pub token_usage : TokenUsage
