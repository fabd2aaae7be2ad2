-- ===== src/Verifier/Root/Sound.antt =====
-- What an accepted result of the root verifier shows.
use c4harness.Base.{
  Nodup, has_key, has_key, Option-cases, ◌==◌, not, ◌&&◌, sym, ap, ◌∙◌, insert_sorted,
  insert_sorted, ◌≡◌, inl, inr, refl, String, Bool, true, false, some, List, [], ◌∷◌, ◌++◌, Dict,
  lookup, keys, contains, contains_self, contains-filter, contains-sorted, filter, map, sorted, All,
  string_eq, arith, Bool-cases,
}
use c4harness.Core.Types.{AcceptanceCriterion, Requirement, is_nonempty}
use c4harness.Core.Graph.{DecompositionPlan}
use c4harness.Core.Contracts.{VerificationResult, Evidence}
use c4harness.Scheduler.{result_is_terminal, is_failed, is_succeeded, NodeOutcome, GraphResult}
use c4harness.Verifier.Root.Accepted.{
  IsAccepted, IsReferring, compute_accepted_nodes-IsAccepted, referring-IsReferring,
  has_failures-lookup, terminal-is_succeeded,
}
use c4harness.Verifier.Root.{
  is_semantic_check, evaluate_semantic_criterion, check_criterion_traceability, evaluate_criterion,
  check_requirement_coverage, criterion_entry, CoverageReport, issue_if, check_graph_health,
  find_missing_verifications, compute_accepted_nodes, referring, requirement_entry, with_status,
  conclude, report_of, uncovered_required, issues_of, verify,
}

sorted-nonempty : (xs : List String) → is_nonempty (sorted xs) ≡ is_nonempty xs
unfolding sorted insert_sorted
sorted-nonempty [] = refl
sorted-nonempty (x ∷ xs) = inserted x (sorted xs)
  where
    inserted : (s : String) (ts : List String) → is_nonempty (insert_sorted s ts) ≡ true
    inserted s [] = refl
    inserted s (t ∷ ts) = ground arith

-- What a list without items that pass a test shows of each item.
filter-empty :
    {A B : Type 0} (f : A → B) (p : A → Bool) (xs : List A)
    → is_nonempty (map f (filter p xs)) ≡ false
    → All (λ x. p x ≡ false) xs
unfolding filter
filter-empty f p [] h = tt
filter-empty f p (x ∷ xs) h = elim (Bool-cases (p x)) [
  | inl here ↦ absurd (ground arith)
  | inr absent ↦ (absent, filter-empty f p xs (ground arith))
]

filter-empty-lookup :
    {V : Type 0} (p : String × V → Bool) (d : Dict String V) (k : String) (v : V)
    → is_nonempty (keys (filter p d)) ≡ false
    → lookup k d ≡ some v
    → p (k, v) ≡ false
unfolding filter lookup keys
filter-empty-lookup p [] k v h found = cc
filter-empty-lookup p ((j, w) ∷ d) k v h found = ground (arith, filter-empty-lookup p d k v)

issue_if-empty :
    (b : Bool) (text : String) (rest : List String)
    → is_nonempty (issue_if b text ++ rest) ≡ false
    → (b ≡ false) × (is_nonempty rest ≡ false)
issue_if-empty true text rest h = cc
issue_if-empty false text rest h = (refl, h)

issue_if-false : (b : Bool) (text : String) → is_nonempty (issue_if b text) ≡ false → b ≡ false
issue_if-false true text h = cc
issue_if-false false text h = refl

some_item : (xs : List String) → is_nonempty xs ≡ true → (x : String) × (contains xs x ≡ true)
some_item [] h = cc
some_item (x ∷ xs) h = (x, contains_self x xs)

module _ {R : Type 0} (plan : DecompositionPlan) (g : GraphResult R)
    (verifications : Dict String VerificationResult) (evidence : Dict String (List Evidence))
    (decisions : Dict String Bool) where
  abbrev accepted_nodes : List String
  accepted_nodes = compute_accepted_nodes g verifications

  abbrev coverage : CoverageReport
  coverage = report_of plan accepted_nodes evidence decisions

  record Passed : Type 0 where
    healthy : is_nonempty (check_graph_health g) ≡ false
    clean : is_nonempty (issues_of (find_missing_verifications g verifications) coverage) ≡ false
    decided : is_nonempty (with_status "inconclusive" coverage.criterion_coverage) ≡ false
    proved : is_nonempty coverage.self_report_only_claims ≡ false

  verify-Passed : (verify plan g verifications evidence decisions).accepted ≡ true → Passed
  unfolding verify conclude
  verify-Passed h = record {
    healthy = ground arith;
    clean = ground arith;
    decided = ground arith;
    proved = ground arith;
  }

  record Clean : Type 0 where
    verified : is_nonempty (find_missing_verifications g verifications) ≡ false
    covered : is_nonempty (uncovered_required coverage) ≡ false
    traced : is_nonempty (with_status "uncovered" coverage.criterion_coverage) ≡ false

  Passed-Clean : Passed → Clean
  unfolding issues_of
  Passed-Clean p =
      let (a, b) = issue_if-empty _ _ _ p.clean in
      let (c, d) = issue_if-empty _ _ _ b in
      let (e, _) = issue_if-empty _ _ _ d in record { verified = a; covered = c; traced = e }

  covering_node :
      (r : Requirement)
      → Nodup (keys plan.graph.nodes)
      → Nodup (keys verifications)
      → (requirement_entry plan.graph accepted_nodes r).covered ≡ true
      → (nid : String) × IsReferring plan.graph r.id nid × IsAccepted g verifications nid
  unfolding requirement_entry
  covering_node r nodes distinct h =
      let (nid, m) = some_item _ h in
      let m1 =
        (contains-sorted (filter (contains accepted_nodes) (sorted (referring plan.graph r.id)))
            nid).0
          m in
      let (m2, accepted) =
        (contains-filter (contains accepted_nodes) (sorted (referring plan.graph r.id)) nid).0 m1 in
      (
        nid,
        referring-IsReferring plan.graph r.id nid nodes
            ((contains-sorted (referring plan.graph r.id) nid).0 m2),
        compute_accepted_nodes-IsAccepted g verifications nid distinct accepted,
      )

  covered_requirements :
      (items : List Requirement)
      → Nodup (keys plan.graph.nodes)
      → Nodup (keys verifications)
      → All
          (λ e. (e.required && not e.covered) ≡ false)
          (map (requirement_entry plan.graph accepted_nodes) items)
      → All
          (λ (r : Requirement).
            (r.required ≡ true)
            → (nid : String) × IsReferring plan.graph r.id nid × IsAccepted g verifications nid)
          items
  unfolding requirement_entry
  covered_requirements [] nodes distinct h = tt
  covered_requirements (r ∷ items) nodes distinct h = (
    (λ required. covering_node r nodes distinct (covered r required h.0)),
    covered_requirements items nodes distinct h.1,
  )
    where
      covered :
          (r : Requirement)
          → r.required ≡ true
          → (r.required && not (requirement_entry plan.graph accepted_nodes r).covered) ≡ false
          → (requirement_entry plan.graph accepted_nodes r).covered ≡ true
      covered r required h = ground arith

  -- A semantic criterion whose status is neither "uncovered" nor "inconclusive" has been approved.
  semantic_decided :
      (c : AcceptanceCriterion)
      → is_semantic_check c.check ≡ true
      → ((criterion_entry plan.graph accepted_nodes decisions c).status == "uncovered") ≡ false
      → ((criterion_entry plan.graph accepted_nodes decisions c).status == "inconclusive") ≡ false
      → lookup c.id decisions ≡ some true
  unfolding criterion_entry evaluate_criterion evaluate_semantic_criterion
  semantic_decided c semantic traced decided = elim (Option-cases (lookup c.id decisions)) [
    | inl absent ↦ absurd (ground arith)
    | inr (b, found) ↦ elim (Bool-cases b) [
      | inl good ↦ found ∙ ap some good
      | inr bad ↦ absurd (ground arith)
    ]
  ]

  decided_criteria :
      (criteria : List AcceptanceCriterion)
      → All
          (λ e. (e.status == "uncovered") ≡ false)
          (map (criterion_entry plan.graph accepted_nodes decisions) criteria)
      → All
          (λ e. (e.status == "inconclusive") ≡ false)
          (map (criterion_entry plan.graph accepted_nodes decisions) criteria)
      → All (λ c. (is_semantic_check c.check ≡ true) → lookup c.id decisions ≡ some true) criteria
  decided_criteria [] h k = tt
  decided_criteria (c ∷ criteria) h k =
      ((λ semantic. semantic_decided c semantic h.0 k.0), decided_criteria criteria h.1 k.1)

  verified_node :
      Clean
      → (nid : String) (o : NodeOutcome R) → lookup nid g.node_outcomes ≡ some o
      → is_succeeded o.state ≡ true
      → has_key nid verifications ≡ true
  unfolding find_missing_verifications
  verified_node c nid o found done =
      let passed =
        filter-empty-lookup (λ (nid, o). is_succeeded o.state && not (has_key nid verifications))
          g.node_outcomes nid o (sym (sorted-nonempty _) ∙ c.verified) found in
      ground (arith, passed, done)

  -- If the root verifier accepts, no node has failed; if each node has succeeded, failed or been blocked,
  -- each has succeeded; every succeeded node has a verification; every required requirement is referred to
  -- by a node of the graph that has succeeded and whose verification is accepted; and every semantic
  -- criterion has an explicit approval. The graph and the verifications have no key twice.
  pub verify_sound :
      Nodup (keys plan.graph.nodes)
      → Nodup (keys verifications)
      → (verify plan g verifications evidence decisions).accepted ≡ true
      → ((nid : String) (o : NodeOutcome R)
          → lookup nid g.node_outcomes ≡ some o
          → (is_failed o.state ≡ false)
            × (result_is_terminal g ≡ true → is_succeeded o.state ≡ true)
            × (is_succeeded o.state ≡ true → has_key nid verifications ≡ true))
        × All
            (λ (r : Requirement).
              (r.required ≡ true)
              → (nid : String) × IsReferring plan.graph r.id nid × IsAccepted g verifications nid)
            plan.situation.requirements.items
        × All
            (λ c. (is_semantic_check c.check ≡ true) → lookup c.id decisions ≡ some true)
            plan.situation.root_contract.criteria
  unfolding check_graph_health report_of check_requirement_coverage check_criterion_traceability
  verify_sound nodes distinct h =
      let p = verify-Passed h in
      let c = Passed-Clean p in
      let (no_failures, rest) = issue_if-empty _ _ _ p.healthy in
      let (_, last) = issue_if-empty _ _ _ rest in
      let moving = issue_if-false _ _ last in
      (
        (λ nid o found. (
          has_failures-lookup g nid o found no_failures,
          terminal-is_succeeded g nid o found no_failures moving,
          verified_node c nid o found,
        )),
        covered_requirements plan.situation.requirements.items nodes distinct (
            filter-empty _ (λ e. e.required && not e.covered) coverage.requirement_coverage
              c.covered),
        decided_criteria plan.situation.root_contract.criteria
            (filter-empty _ (λ e. e.status == "uncovered") coverage.criterion_coverage c.traced)
            (filter-empty _ (λ e. e.status == "inconclusive") coverage.criterion_coverage
              p.decided),
      )
