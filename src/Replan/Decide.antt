-- ===== src/Replan/Decide.antt =====
-- `decide_retry` of c4harness/decompose/replan.py: when a worker is called again.
use c4harness.Base.{
  ℕ, ◌<◌, ◌≤◌, ◌≡◌, refl, Bool, true, false, some, List, [], ◌∷◌, inl, inr, all, ltb, arith,
  Option-cases,
}
use c4harness.Core.Types.{TaskNodeContract, is_nonempty}
use c4harness.Core.Contracts.{FailureRecord, VerificationResult}
use c4harness.Replan.{
  ReplanReason, ReplanAction, ReplanDecision, Markers, missing_context, retry_same_worker,
  select_another_worker, request_consent, escalate_main_agent, stop, worker_capability_mismatch,
  verification_failed, verification_inconclusive, environment_failure, permission_blocked,
  consent_scope_changed, new_dependency, conflict_detected, budget_exhausted, root_gap,
  classify_replan_reason, is_retryable_by_failures, decision_for, decide_retry, failure_retryable,
}

-- An action after which a worker is called again, and one after which the node may be attempted again.
abbrev pub calls_worker : ReplanAction → Bool
calls_worker retry_same_worker = true
calls_worker select_another_worker = true
calls_worker _ = false

abbrev pub ends_node : ReplanAction → Bool
ends_node escalate_main_agent = true
ends_node stop = true
ends_node request_consent = true
ends_node _ = false

decision_for-bounded :
    (v : VerificationResult) (attempt max_attempts : ℕ) (fallback : Bool) (reason : ReplanReason)
    → ltb attempt max_attempts ≡ false
    → ends_node (decision_for v attempt max_attempts fallback reason).action ≡ true
unfolding decision_for is_retryable_by_failures
decision_for-bounded v a m b missing_context h = ground arith
decision_for-bounded v a m b worker_capability_mismatch h = ground arith
decision_for-bounded v a m b verification_failed h = ground arith
decision_for-bounded v a m b verification_inconclusive h = ground arith
decision_for-bounded v a m b environment_failure h = ground arith
decision_for-bounded v a m b permission_blocked h = ground arith
decision_for-bounded v a m b consent_scope_changed h = ground arith
decision_for-bounded v a m b new_dependency h = ground arith
decision_for-bounded v a m b conflict_detected h = ground arith
decision_for-bounded v a m b budget_exhausted h = ground arith
decision_for-bounded v a m b root_gap h = ground arith

-- At the last attempt of a node, any decision of `decide_retry` ends the node: it escalates, stops, or asks
-- for consent.
pub decide_retry_bounded :
    (v : VerificationResult) (contract : TaskNodeContract) (attempt : ℕ) (m : Markers)
    (fallback : Bool) (d : ReplanDecision)
    → contract.max_attempts ≤ attempt
    → decide_retry v contract attempt m fallback ≡ some d
    → ends_node d.action ≡ true
unfolding decide_retry
decide_retry_bounded v contract attempt m fallback d late h =
    elim (Option-cases (classify_replan_reason v m)) [
      | inl accepted ↦ absurd (ground arith)
      | inr (reason, found) ↦
          let same : decision_for v attempt contract.max_attempts fallback reason ≡ d =
            ground arith in
          rw (← same)
            (decision_for-bounded v attempt contract.max_attempts fallback reason (ground arith))
    ]

-- What a decision that calls a worker again shows.
abbrev Justified : VerificationResult → ℕ → ℕ → Type 0
Justified v attempt max_attempts = (attempt < max_attempts) × (is_retryable_by_failures v ≡ true)

all_of_nothing :
    (v : VerificationResult) → is_nonempty v.failures ≡ false → is_retryable_by_failures v ≡ true
unfolding is_retryable_by_failures all
all_of_nothing v h = at v.failures h
  where
    at : (fs : List FailureRecord) → is_nonempty fs ≡ false → all failure_retryable fs ≡ true
    at [] h = refl
    at (f ∷ fs) h = cc

decision_for-Justified :
    (v : VerificationResult) (attempt max_attempts : ℕ) (fallback : Bool) (reason : ReplanReason)
    → calls_worker (decision_for v attempt max_attempts fallback reason).action ≡ true
    → Justified v attempt max_attempts
unfolding decision_for
decision_for-Justified v a m b missing_context h = ground (arith, all_of_nothing v)
decision_for-Justified v a m b worker_capability_mismatch h = ground (arith, all_of_nothing v)
decision_for-Justified v a m b verification_failed h = ground (arith, all_of_nothing v)
decision_for-Justified v a m b verification_inconclusive h = ground (arith, all_of_nothing v)
decision_for-Justified v a m b environment_failure h = ground arith
decision_for-Justified v a m b permission_blocked h = ground arith
decision_for-Justified v a m b consent_scope_changed h = ground arith
decision_for-Justified v a m b new_dependency h = ground (arith, all_of_nothing v)
decision_for-Justified v a m b conflict_detected h = ground arith
decision_for-Justified v a m b budget_exhausted h = ground (arith, all_of_nothing v)
decision_for-Justified v a m b root_gap h = ground (arith, all_of_nothing v)

-- If `decide_retry` has a worker called again, the result was not accepted, none of the three markers is
-- set, an attempt is left, and every structured failure is retryable: it is a failure of the worker, an
-- inconclusive semantic check, or marked retryable outside policy, environment and integration.
pub decide_retry_justified :
    (v : VerificationResult) (contract : TaskNodeContract) (attempt : ℕ) (m : Markers)
    (fallback : Bool) (d : ReplanDecision)
    → decide_retry v contract attempt m fallback ≡ some d
    → calls_worker d.action ≡ true
    → (v.accepted ≡ false)
      × (m.integration_conflict ≡ false)
      × (m.policy_blocked ≡ false)
      × (m.environment_failure ≡ false)
      × (attempt < contract.max_attempts)
      × (all failure_retryable v.failures ≡ true)
unfolding decide_retry classify_replan_reason is_retryable_by_failures
decide_retry_justified v contract attempt m fallback d h again =
    elim (Option-cases (classify_replan_reason v m)) [
      | inl accepted ↦ absurd (ground arith)
      | inr (reason, found) ↦
          let same : decision_for v attempt contract.max_attempts fallback reason ≡ d =
            ground arith in
          let calls : calls_worker
                (decision_for v attempt contract.max_attempts fallback reason).action
              ≡ true =
            rw same again in
          let (left, good) =
            decision_for-Justified v attempt contract.max_attempts fallback reason calls in
          let (a, b, c, e) = unmarked reason found (hard_reason calls) in (a, b, c, e, left, good)
    ]
  where
    hard_reason :
        {reason : ReplanReason}
        → calls_worker (decision_for v attempt contract.max_attempts fallback reason).action ≡ true
        → (reason ≡ conflict_detected → calls_worker escalate_main_agent ≡ true)
          × (reason ≡ permission_blocked → calls_worker escalate_main_agent ≡ true)
          × (reason ≡ environment_failure → calls_worker stop ≡ true)
    hard_reason calls =
        unfold decision_for in (λ e. rw e at calls, λ e. rw e at calls, λ e. rw e at calls)

    unmarked :
        (reason : ReplanReason)
        → classify_replan_reason v m ≡ some reason
        → (reason ≡ conflict_detected → false ≡ true)
          × (reason ≡ permission_blocked → false ≡ true)
          × (reason ≡ environment_failure → false ≡ true)
        → (v.accepted ≡ false)
          × (m.integration_conflict ≡ false)
          × (m.policy_blocked ≡ false)
          × (m.environment_failure ≡ false)
    unmarked reason found (c, p, e) = ground arith
