-- ===== src/Verifier/Root/Checks.antt =====
-- The checks that `RootVerifier.verify` of c4harness/verifier/root.py puts together.
use Prim.Native.String.{◌++◌ as ◌<>◌}
use c4harness.Base.{
  String, Bool, true, false, not, ◌&&◌, none, some, List, [], ◌∷◌, ◌++◌, Dict, lookup, has_key,
  keys, contains, filter, map, sorted, to_set, length, ltb, text_before, ◌==◌, string_eq,
  if◌then◌else◌,
}
use c4harness.Core.Types.{
  Requirement, RequirementKind, constraint, RequirementLedger, AcceptanceCriterion, RootContract,
  TaskContractGraph, is_nonempty,
}
use c4harness.Core.Graph.{join, flat}
use c4harness.Core.Contracts.{VerificationResult, Evidence}
use c4harness.Scheduler.{GraphResult, is_succeeded, has_failures, is_incomplete, deadlock_detected}
use c4harness.Verifier.Root.Reports.{
  RequirementCoverageEntry, CriterionCoverage, deterministic_check_names,
}

-- `if test: issues.append(issue)`
abbrev pub issue_if : Bool → String → List String
issue_if test issue = if test then issue ∷ [] else []

module _ {R : Type 0} where
  unfoldable pub check_graph_health : GraphResult R → List String
  check_graph_health g =
      issue_if (has_failures g) "Graph has failed nodes; root verification rejected."
      ++ (issue_if (is_incomplete g)
            "Graph is incomplete with blocked nodes; root verification rejected."
          ++ issue_if (deadlock_detected g) "Graph deadlock detected; root verification rejected.")

  unfoldable pub find_missing_verifications :
      GraphResult R → Dict String VerificationResult → List String
  find_missing_verifications g verifications = sorted (
      keys (
        filter (λ (nid, o). is_succeeded o.state && not (has_key nid verifications))
          g.node_outcomes))

  -- The test in the loop of `_compute_accepted_nodes`.
  unfoldable pub is_accepted_node : GraphResult R → String → VerificationResult → Bool
  is_accepted_node g nid v = elim (lookup nid g.node_outcomes) [
    | none ↦ false
    | some o ↦ is_succeeded o.state && v.accepted
  ]

  unfoldable pub compute_accepted_nodes :
      GraphResult R → Dict String VerificationResult → List String
  unfolding is_accepted_node
  compute_accepted_nodes g verifications =
      keys (filter (λ (nid, v). is_accepted_node g nid v) verifications)

-- The ids of the nodes that refer to a requirement, in the order of the graph.
unfoldable pub referring : TaskContractGraph → String → List String
referring graph ref = keys (filter (λ (nid, node). contains node.requirement_refs ref) graph.nodes)

-- Those of them that are accepted.
unfoldable pub accepted_referring : TaskContractGraph → List String → String → List String
accepted_referring graph accepted ref = keys (
    filter (λ (nid, node). contains node.requirement_refs ref && contains accepted nid) graph.nodes)

-- The body of the loop of `_check_requirement_coverage`.
unfoldable pub requirement_entry :
    TaskContractGraph → List String → Requirement → RequirementCoverageEntry
unfolding referring
requirement_entry graph accepted req =
    let covering = sorted (referring graph req.id) in
    let accepted_covering = sorted (filter (contains accepted) covering) in
    record {
      requirement_id = req.id;
      required = req.required;
      kind = req.kind;
      covered = is_nonempty accepted_covering;
      covering_nodes = covering;
      accepted_covering_nodes = accepted_covering;
    }

unfoldable pub check_requirement_coverage :
    RequirementLedger → TaskContractGraph → List String → List RequirementCoverageEntry
unfolding requirement_entry
check_requirement_coverage ledger graph accepted =
    map (requirement_entry graph accepted) ledger.items

unfoldable pub is_semantic_check : String → Bool
is_semantic_check check = not (contains deterministic_check_names (text_before b':' check))

-- The tuple that the two functions for a criterion return.
pub record CriterionStatus : Type 0 where
  pub status : String
  pub contributing : List String
  pub uncovered_refs : List String
  pub issues : List String

unfoldable pub evaluate_semantic_criterion :
    AcceptanceCriterion → List String → Dict String Bool → CriterionStatus
evaluate_semantic_criterion c accepted decisions = elim (lookup c.id decisions) [
  | some true ↦ record {
    status = "covered";
    contributing = sorted accepted;
    uncovered_refs = [];
    issues = [];
  }
  | some false ↦ record {
    status = "uncovered";
    contributing = [];
    uncovered_refs = [];
    issues = "Explicitly rejected by orchestrator decision." ∷ [];
  }
  | none ↦ record {
    status = "inconclusive";
    contributing = [];
    uncovered_refs = [];
    issues =
        "Semantic criterion requires explicit orchestrator/reviewer decision; auto-pass is not permitted."
        ∷ [];
  }
]

unfoldable pub evaluate_deterministic_criterion :
    AcceptanceCriterion → TaskContractGraph → List String → CriterionStatus
unfolding accepted_referring
evaluate_deterministic_criterion c graph accepted =
    let contributing =
      sorted (to_set (flat (map (accepted_referring graph accepted) c.requirement_refs))) in
    let uncovered_refs =
      filter (λ ref. not (is_nonempty (accepted_referring graph accepted ref)))
        c.requirement_refs in
    if is_nonempty uncovered_refs
    then record {
      status = "uncovered";
      contributing = contributing;
      uncovered_refs = sorted uncovered_refs;
      issues = ("Uncovered requirement refs: " <> join (sorted uncovered_refs)) ∷ [];
    }
    else if not (is_nonempty c.requirement_refs) && not (is_nonempty accepted)
    then record {
      status = "uncovered";
      contributing = [];
      uncovered_refs = [];
      issues = "No accepted nodes to cover criterion without requirement_refs." ∷ [];
    }
    else record {
      status = "covered";
      contributing = contributing;
      uncovered_refs = [];
      issues = [];
    }

unfoldable pub evaluate_criterion :
    TaskContractGraph → List String → Dict String Bool → AcceptanceCriterion → CriterionStatus
unfolding is_semantic_check evaluate_semantic_criterion evaluate_deterministic_criterion
evaluate_criterion graph accepted decisions c =
    if is_semantic_check c.check
    then evaluate_semantic_criterion c accepted decisions
    else evaluate_deterministic_criterion c graph accepted

unfoldable pub criterion_entry :
    TaskContractGraph → List String → Dict String Bool → AcceptanceCriterion → CriterionCoverage
unfolding evaluate_criterion
criterion_entry graph accepted decisions c =
    let s = evaluate_criterion graph accepted decisions c in
    record {
      criterion_id = c.id;
      description = c.description;
      check = c.check;
      status = s.status;
      contributing_nodes = s.contributing;
      uncovered_requirement_refs = s.uncovered_refs;
      issues = s.issues;
    }

unfoldable pub check_criterion_traceability :
    RootContract → TaskContractGraph → List String → Dict String Bool → List CriterionCoverage
unfolding criterion_entry
check_criterion_traceability root graph accepted decisions =
    map (criterion_entry graph accepted decisions) root.criteria

abbrev pub is_constraint : RequirementKind → Bool
is_constraint constraint = true
is_constraint _ = false

unfoldable pub check_constraints : RequirementLedger → TaskContractGraph → List String → List String
unfolding accepted_referring
check_constraints ledger graph accepted =
    map (λ (r : Requirement). "Constraint '" <> r.id <> "' not covered by any accepted node.")
      (filter
        (λ (r : Requirement).
          is_constraint r.kind && not (is_nonempty (accepted_referring graph accepted r.id)))
        ledger.items)

-- `node_evidence.get(nid, [])`
abbrev pub evidence_of : Dict String (List Evidence) → String → List Evidence
evidence_of evidence nid = elim (lookup nid evidence) [ none ↦ [] | some items ↦ items ]

-- The paths that a node gives as evidence, and the accepted nodes that give a path.
unfoldable pub evidence_paths : Dict String (List Evidence) → String → List String
evidence_paths evidence nid =
    filter (λ p. not (p == "")) (map (λ (e : Evidence). e.path) (evidence_of evidence nid))

unfoldable pub path_owners : Dict String (List Evidence) → List String → String → List String
unfolding evidence_paths
path_owners evidence accepted path =
    sorted (to_set (filter (λ nid. contains (evidence_paths evidence nid) path) accepted))

unfoldable pub detect_artifact_conflicts : Dict String (List Evidence) → List String → List String
unfolding path_owners
detect_artifact_conflicts evidence accepted =
    map
      (λ path.
        "Artifact '"
        <> path
        <> "' claimed by multiple accepted nodes: "
        <> join (path_owners evidence accepted path))
      (filter (λ path. ltb 1 (length (path_owners evidence accepted path)))
        (sorted (to_set (flat (map (evidence_paths evidence) accepted)))))

-- The test in the loop of `_detect_self_report_claims`.
unfoldable pub self_reported : TaskContractGraph → String → Bool
self_reported graph nid = elim (lookup nid graph.nodes) [
  | none ↦ false
  | some node ↦
      not (is_nonempty node.verification.deterministic_checks)
      && not (is_nonempty node.verification.evidence_requirements)
]

unfoldable pub detect_self_report_claims : TaskContractGraph → List String → List String
unfolding self_reported
detect_self_report_claims graph accepted =
    map
      (λ nid.
        "Node '" <> nid
        <> "' accepted without deterministic checks or evidence requirements; relies on worker self-report.")
      (filter (self_reported graph) (sorted accepted))
