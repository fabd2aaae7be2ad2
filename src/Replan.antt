-- ===== src/Replan.antt =====
-- c4harness/decompose/replan.py: what is done after a node was not accepted.
pub mod Decide
use Prim.Native.Char.{code}
use Prim.Native.String.{◌++◌ as ◌<>◌}
use c4harness.Base.{
  all, ℕ, String, Bool, true, false, not, ◌&&◌, ◌||◌, Option, none, some, List, [], ◌∷◌, ◌==◌,
  string_eq, any, all, filter, contains, ltb, leb, decimal, text_before, text_after, if◌then◌else◌,
}
use c4harness.Core.Types.{TaskNodeContract, is_nonempty, is_space}
use c4harness.Core.Contracts.{
  FailureCategory, FailureRecord, VerificationResult, worker, policy_permission, environment,
  integration_conflict, semantic_inconclusive,
}

pub data ReplanReason : Type 0 where
  missing_context worker_capability_mismatch verification_failed verification_inconclusive
        environment_failure permission_blocked consent_scope_changed new_dependency
        conflict_detected budget_exhausted root_gap :
      ReplanReason

pub data ReplanAction : Type 0 where
  add_context revise_contract retry_same_worker select_another_worker split_node request_consent
        escalate_main_agent stop :
      ReplanAction

unfoldable pub reason_text : ReplanReason → String
reason_text ReplanReason.missing_context = "missing_context"
reason_text worker_capability_mismatch = "worker_capability_mismatch"
reason_text verification_failed = "verification_failed"
reason_text verification_inconclusive = "verification_inconclusive"
reason_text environment_failure = "environment_failure"
reason_text permission_blocked = "permission_blocked"
reason_text consent_scope_changed = "consent_scope_changed"
reason_text new_dependency = "new_dependency"
reason_text conflict_detected = "conflict_detected"
reason_text budget_exhausted = "budget_exhausted"
reason_text root_gap = "root_gap"

unfoldable pub action_text : ReplanAction → String
action_text add_context = "add_context"
action_text revise_contract = "revise_contract"
action_text retry_same_worker = "retry_same_worker"
action_text select_another_worker = "select_another_worker"
action_text split_node = "split_node"
action_text request_consent = "request_consent"
action_text escalate_main_agent = "escalate_main_agent"
action_text stop = "stop"

pub record ReplanRequest : Type 0 where
  pub task_id : String
  pub node_id : String
  pub reason : ReplanReason
  pub attempt : ℕ
  pub detail : String

pub record ReplanDecision : Type 0 where
  pub action : ReplanAction
  pub reason : ReplanReason
  pub explanation : String

pub record BoundedReplanner : Type 0 where
  pub max_attempts : ℕ

-- The `if` chain of `BoundedReplanner.decide`.
unfoldable pub chosen_action : BoundedReplanner → ReplanRequest → ReplanAction
chosen_action r q = elim q.reason [
  | ReplanReason.missing_context ↦ add_context
  | consent_scope_changed ↦ request_consent
  | permission_blocked ↦ escalate_main_agent
  | worker_capability_mismatch ↦ select_another_worker
  | verification_inconclusive ↦ revise_contract
  | verification_failed ↦ if ltb q.attempt r.max_attempts then retry_same_worker else split_node
  | environment_failure ↦ stop
  | budget_exhausted ↦ stop
  | _ ↦ revise_contract
]

unfoldable pub decide : BoundedReplanner → ReplanRequest → ReplanDecision
unfolding chosen_action action_text reason_text
decide r q =
    let action = chosen_action r q in
    record {
      action = action;
      reason = q.reason;
      explanation =
          if q.detail == ""
          then "Selected " <> action_text action <> " for " <> reason_text q.reason <> "."
          else q.detail;
    }

abbrev pub is_inconclusive : FailureCategory → Bool
is_inconclusive semantic_inconclusive = true
is_inconclusive _ = false

abbrev pub is_worker : FailureCategory → Bool
is_worker worker = true
is_worker _ = false

-- The first loop over `verification.failures`.
unfoldable pub first_hard_reason : List FailureRecord → Option ReplanReason
first_hard_reason [] = none
first_hard_reason (f ∷ failures) = elim f.category [
  | policy_permission ↦ some permission_blocked
  | environment ↦ some environment_failure
  | integration_conflict ↦ some conflict_detected
  | FailureCategory.missing_context ↦ some ReplanReason.missing_context
  | _ ↦ first_hard_reason failures
]

-- `text.strip()`
lstrip : String → String
lstrip String.[] = ""
lstrip (String.◌∷◌ c s) = let rest = lstrip s in if is_space (code c) then rest else String.◌∷◌ c s

rstrip : String → String
rstrip String.[] = ""
rstrip (String.◌∷◌ c s) =
    let rest = rstrip s in if is_space (code c) && rest == "" then "" else String.◌∷◌ c rest

abbrev starts_with_bracket : String → Bool
starts_with_bracket String.[] = false
starts_with_bracket (String.◌∷◌ c s) = leb b'[' (code c) && leb (code c) b'['

-- The set comprehension `checks`.
unfoldable pub check_names : List String → List String
unfolding lstrip rstrip
check_names [] = []
check_names (issue ∷ issues) =
    let rest = check_names issues in
    if not (starts_with_bracket issue) then rest else elim (text_after b']' issue) [
      | none ↦ rest
      | some after ↦ rstrip (lstrip (text_before b':' after)) ∷ rest
    ]

-- What follows `if verification.accepted: return None`.
unfoldable pub rejected_reason : VerificationResult → ReplanReason
unfolding first_hard_reason check_names
rejected_reason v =
    let checks = check_names v.issues in
    if is_nonempty v.failures
    then elim (first_hard_reason v.failures) [
      | some reason ↦ reason
      | none ↦
          if any (λ f. is_inconclusive f.category) v.failures
          then verification_inconclusive
          else verification_failed
    ]
    else if contains checks "file_exists" || contains checks "evidence_requirements"
    then ReplanReason.missing_context
    else if v.confidence == "blocked"
    then environment_failure
    else if v.confidence == "inconclusive"
    then verification_inconclusive
    else verification_failed

-- The keyword arguments of `classify_replan_reason`.
pub record Markers : Type 0 where
  pub integration_conflict : Bool
  pub policy_blocked : Bool
  pub environment_failure : Bool

unfoldable pub classify_replan_reason : VerificationResult → Markers → Option ReplanReason
unfolding rejected_reason
classify_replan_reason v m =
    if m.integration_conflict
    then some conflict_detected
    else if m.policy_blocked
    then some permission_blocked
    else if m.environment_failure
    then some environment_failure
    else if v.accepted
    then none
    else some (rejected_reason v)

-- One round of the loop of `_is_retryable_by_failures`.
abbrev pub failure_retryable : FailureRecord → Bool
failure_retryable f = elim f.category [
  | policy_permission ↦ false
  | environment ↦ false
  | integration_conflict ↦ false
  | worker ↦ true
  | semantic_inconclusive ↦ true
  | _ ↦ f.retryable
]

unfoldable pub is_retryable_by_failures : VerificationResult → Bool
is_retryable_by_failures v = all failure_retryable v.failures

-- `f"Attempt {attempt}/{contract.max_attempts}: " + text`
attempt_text : ℕ → ℕ → String → String
attempt_text attempt max_attempts text =
    "Attempt " <> decimal attempt <> "/" <> decimal max_attempts <> ": " <> text

-- What `decide_retry` does with a reason that is not `None`.
unfoldable pub decision_for : VerificationResult → ℕ → ℕ → Bool → ReplanReason → ReplanDecision
unfolding is_retryable_by_failures attempt_text reason_text action_text
decision_for v attempt max_attempts fallback_available reason =
    let within = ltb attempt max_attempts in
    let say = attempt_text attempt max_attempts in
    let named = reason_text reason in
    let give : ReplanAction → String → ReplanDecision =
      λ action text. record { action = action; reason = reason; explanation = say text } in
    let hard = is_nonempty v.failures && not (is_retryable_by_failures v) in
    let escalate =
      give escalate_main_agent
        "structured failures indicate non-retryable condition; escalating." in
    let last : ReplanAction → ReplanDecision =
      λ action. give action (named <> " -> " <> action_text action <> ".") in
    let rest : ReplanAction → ReplanDecision =
      λ action. if hard then escalate else last (if within then action else escalate_main_agent) in
    elim reason [
      | permission_blocked ↦ give escalate_main_agent (named <> " is non-retryable; escalating.")
      | environment_failure ↦ give stop (named <> " is non-retryable; stopping.")
      | conflict_detected ↦ give escalate_main_agent (named <> " is non-retryable; escalating.")
      | consent_scope_changed ↦ give request_consent (named <> " requires consent; not retrying.")
      | ReplanReason.missing_context ↦
          if within then give add_context "missing_context -> add_context." else rest add_context
      | verification_inconclusive ↦
          if within
          then give revise_contract "verification_inconclusive -> revise_contract."
          else rest revise_contract
      | _ ↦ rest (if fallback_available then select_another_worker else retry_same_worker)
    ]

unfoldable pub decide_retry :
    VerificationResult → TaskNodeContract → ℕ → Markers → Bool → Option ReplanDecision
unfolding classify_replan_reason decision_for
decide_retry v contract attempt m fallback_available = elim (classify_replan_reason v m) [
  | none ↦ none
  | some reason ↦ some (decision_for v attempt contract.max_attempts fallback_available reason)
]
