-- ===== src/Tests/Decisions.antt =====
-- Tests of replanning, of the choice of workers, and of write reservations.
use c4harness.Paths.{root_of, parts, split, as_posix}
use c4harness.Base.{
  decimal, any, insert, erase, any, ◌<◌, ◌≡◌, ◌↔◌, refl, String, true, false, none, some, List, [],
  ◌∷◌, contains, lookup, keys, all, filter, values, Nodup, string_eq, arith,
}
use c4harness.Core.Errors.{ok}
use c4harness.Core.Types.{WorkerArm}
use c4harness.Core.Contracts.{FailureRecord, VerificationResult, worker}
use c4harness.Replan.{
  Markers, ReplanDecision, verification_failed, retry_same_worker, escalate_main_agent,
  decide_retry, failure_retryable, classify_replan_reason, rejected_reason, first_hard_reason,
  check_names, decision_for, is_retryable_by_failures,
}
use c4harness.Replan.Decide.{ends_node, decide_retry_bounded, decide_retry_justified}
use c4harness.Capabilities.{match_capabilities, WorkerRegistry, eligible}
use c4harness.Capabilities.Eligible.{Meets, eligible_correct}
use c4harness.Reservations.{
  ReservationRecord, WriteReservationManager, new_manager, canonical_paths, canonical_write_path,
  reserve, reserve_conflicts, acquire, held_by, release, release_normalized,
}
use c4harness.Reservations.Disjoint.{IsDisjoint, IsHeld, reserve-IsDisjoint, release-IsDisjoint}
use c4harness.Tests.Fixtures.{node, no_needs}

abbrev no_markers : Markers
no_markers = record {
  integration_conflict = false;
  policy_blocked = false;
  environment_failure = false;
}

abbrev worker_failure : FailureRecord
worker_failure = record {
  category = worker;
  code = "worker:error";
  message = "no";
  phase_or_check = "";
  retryable = true;
  blame = "worker";
}

abbrev rejected : VerificationResult
rejected = record {
  accepted = false;
  confidence = "low";
  issues = [];
  memory_facts = [];
  failures = worker_failure ∷ [];
}

abbrev retry : ReplanDecision
retry = record {
  action = retry_same_worker;
  reason = verification_failed;
  explanation = "Attempt 1/2: verification_failed -> retry_same_worker.";
}

abbrev escalation : ReplanDecision
escalation = record {
  action = escalate_main_agent;
  reason = verification_failed;
  explanation = "Attempt 2/2: verification_failed -> escalate_main_agent.";
}

first_attempt : decide_retry rejected (node "a" "src/a.py") 1 no_markers false ≡ some retry
unfolding decide_retry classify_replan_reason rejected_reason first_hard_reason check_names
    decision_for is_retryable_by_failures any all decimal
first_attempt = refl

last_attempt : decide_retry rejected (node "a" "src/a.py") 2 no_markers false ≡ some escalation
unfolding decide_retry classify_replan_reason rejected_reason first_hard_reason check_names
    decision_for is_retryable_by_failures any all decimal
last_attempt = refl

decide_retry_bounded_example : ends_node escalation.action ≡ true
decide_retry_bounded_example =
    decide_retry_bounded rejected (node "a" "src/a.py") 2 no_markers false escalation (omega arith)
      last_attempt

decide_retry_justified_example :
    (rejected.accepted ≡ false)
    × (no_markers.integration_conflict ≡ false)
    × (no_markers.policy_blocked ≡ false)
    × (no_markers.environment_failure ≡ false)
    × (1 < 2)
    × (all failure_retryable rejected.failures ≡ true)
decide_retry_justified_example =
    decide_retry_justified rejected (node "a" "src/a.py") 1 no_markers false retry first_attempt
      refl

abbrev some_worker : WorkerArm
some_worker = record {
  id = "w";
  backend = "cli";
  harness = "codex";
  model = "m";
  model_alias = none;
  model_version = none;
  policy_profile = "default";
  enabled = true;
  capabilities = record {
    modalities = "text" ∷ [];
    tools = [];
    write_isolation = "none";
    network = false;
    structured_output = true;
    context_tokens = 1000;
    persistent_session = false;
    provider_protocol = "cli";
    privacy_zone = "local";
    soft = [];
  };
}

abbrev one_worker : WorkerRegistry
one_worker = record { workers = ("w", some_worker) ∷ [] }

one_worker_distinct : Nodup (keys one_worker.workers)
unfolding keys contains
one_worker_distinct = (refl, tt)

eligible_correct_example :
    (eligible one_worker no_needs
      ≡ ok (filter (λ w. (match_capabilities no_needs w).eligible) (values one_worker.workers)))
    × ((w : WorkerArm)
        → ((match_capabilities no_needs w).eligible ≡ true)
          ↔ ((w.enabled ≡ true) × Meets no_needs w.capabilities))
eligible_correct_example = eligible_correct one_worker no_needs one_worker_distinct

abbrev a_holds_src : ReservationRecord
a_holds_src = record { node_id = "a"; path = "src"; released = false }

abbrev src_reserved : WriteReservationManager
src_reserved = record { active = ("src", a_holds_src) ∷ []; all_records = a_holds_src ∷ [] }

src_canonical : canonical_write_path "src/" ≡ ok "src"
unfolding canonical_write_path string_eq root_of parts split as_posix contains filter
src_canonical = refl

reserve_src : reserve new_manager "a" ("src/" ∷ []) ≡ ok (src_reserved, a_holds_src ∷ [])
unfolding new_manager reserve canonical_paths canonical_write_path reserve_conflicts acquire
    string_eq root_of parts split as_posix contains filter lookup insert
reserve_src = refl

new_manager-IsDisjoint : IsDisjoint new_manager.active
unfolding new_manager lookup
new_manager-IsDisjoint p q r s h k other = cc

reserve-IsDisjoint_example :
    (normalized : List String) × (canonical_paths ("src/" ∷ []) ≡ ok normalized)
    × ((p : String) → contains normalized p ≡ true → IsHeld src_reserved.active "a" p)
    × IsDisjoint src_reserved.active
reserve-IsDisjoint_example =
    reserve-IsDisjoint new_manager src_reserved "a" ("src/" ∷ []) (a_holds_src ∷ [])
      new_manager-IsDisjoint reserve_src

abbrev src_released : WriteReservationManager
src_released = record {
  active = [];
  all_records = a_holds_src ∷ record { node_id = "a"; path = "src"; released = true } ∷ [];
}

src_reserved-IsDisjoint : IsDisjoint src_reserved.active
src_reserved-IsDisjoint =
    (reserve-IsDisjoint new_manager src_reserved "a" ("src/" ∷ []) (a_holds_src ∷ [])
      new_manager-IsDisjoint reserve_src).3

release_src : release src_reserved "a" "src/" ≡ ok (src_released, true)
unfolding release release_normalized canonical_write_path string_eq root_of parts split as_posix
    contains filter lookup erase
release_src = refl

release-IsDisjoint_example :
    IsDisjoint src_released.active
    × (held_by "a" (lookup "src" src_released.active) ≡ false)
    × (true ≡ held_by "a" (lookup "src" src_reserved.active))
release-IsDisjoint_example =
    release-IsDisjoint src_reserved src_released "a" "src/" "src" true src_reserved-IsDisjoint
      src_canonical release_src
