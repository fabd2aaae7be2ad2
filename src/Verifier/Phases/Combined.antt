-- ===== src/Verifier/Phases/Combined.antt =====
-- When the combined result of the phases is accepted, and that the two phases share out the checks.
use c4harness.Base.{
  text_before, none, ◌≡◌, ◌↔◌, ◌⊎◌, String, Bool, true, false, not, ◌&&◌, List, [], ◌∷◌, any, all,
  contains, contains-filter, ◌==◌, string_eq, arith,
}
use c4harness.Core.Types.{VerificationContract}
use c4harness.Core.Contracts.{VerificationResult}
use c4harness.Verifier.Phases.{
  combine_phase_results, is_blocking, is_rejecting, is_doubtful, contract_for_phase,
  is_proposal_check,
}

-- A phase that lets the node pass.
abbrev pub passes : VerificationResult → Bool
passes r = r.accepted && (not (r.confidence == "blocked") && not (r.confidence == "inconclusive"))

all-passes :
    (results : List VerificationResult)
    → (all passes results ≡ true) ↔ (
        (any is_blocking results ≡ false)
        × (any is_rejecting results ≡ false)
        × (any is_doubtful results ≡ false))
unfolding all any
all-passes [] = ground arith
all-passes (r ∷ results) = ground (arith, all-passes results)

-- The combined result of the phases is accepted exactly if each of them has accepted, with a confidence that
-- is neither "blocked" nor "inconclusive".
pub combine_phase_results_accepted :
    (results : List VerificationResult)
    → ((combine_phase_results results).accepted ≡ true) ↔ (all passes results ≡ true)
unfolding combine_phase_results all
combine_phase_results_accepted [] = ground arith
combine_phase_results_accepted (r ∷ results) = ground (arith, all-passes (r ∷ results))

-- A check whose name, the text before the first colon, is one of the three that need only the proposed patch.
abbrev pub IsProposalCheck : String → Type 0
IsProposalCheck e =
    (text_before b':' e ≡ "changed_paths_within_allowlist")
    ⊎ ((text_before b':' e ≡ "patch_non_empty") ⊎ (text_before b':' e ≡ "requirement_coverage"))

is_proposal_check_iff : (e : String) → (is_proposal_check e ≡ true) ↔ IsProposalCheck e
unfolding is_proposal_check contains
is_proposal_check_iff e = ground arith

-- The proposal phase has exactly those deterministic checks of the contract that need only the proposed patch,
-- by their names, no evidence to look for and no semantic check; the other phase has exactly the other
-- deterministic checks, and the evidence and the semantic check of the contract.
pub contract_for_phase_shares :
    (c : VerificationContract) (e : String)
    → ((contains (contract_for_phase c true).deterministic_checks e ≡ true)
        ↔ ((contains c.deterministic_checks e ≡ true) × IsProposalCheck e))
      × ((contains (contract_for_phase c false).deterministic_checks e ≡ true)
          ↔ ((contains c.deterministic_checks e ≡ true) × (¬ IsProposalCheck e)))
      × ((contract_for_phase c true).evidence_requirements ≡ [])
      × ((contract_for_phase c true).semantic_check ≡ none)
      × ((contract_for_phase c false).evidence_requirements ≡ c.evidence_requirements)
      × ((contract_for_phase c false).semantic_check ≡ c.semantic_check)
unfolding contract_for_phase
contract_for_phase_shares c e = ground (
  arith,
  is_proposal_check_iff e,
  contains-filter is_proposal_check c.deterministic_checks e,
  contains-filter (λ x. not (is_proposal_check x)) c.deterministic_checks e,
)
