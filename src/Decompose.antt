-- ===== src/Decompose.antt =====
-- c4harness/decompose: whether and how a task is split (operators.py, atomicity.py). A score is a whole
-- number in the source too.
pub mod Shape
use Prim.Native.Char.{code}
use c4harness.Base.{
  has_text, ℕ, ◌-◌, String, Bool, true, false, not, ◌&&◌, ◌||◌, Option, none, some, List, [], ◌∷◌,
  ◌++◌, any, filter, map, contains, length, leb, ltb, ◌==◌, string_eq, if◌then◌else◌,
}
use c4harness.Core.Types.{
  Requirement, TaskSituation, TaskNodeContract, NodeKind, verify, merge, decision, wait,
  ExecutionShape, fast_path, graph, deliverables, is_nonempty, is_blank, is_verifiable,
}
use c4harness.Capabilities.{reason_if, is_subset}

pub record SplitProposal : Type 0 where
  pub operator : String
  pub objectives : List String
  pub sequential : Bool
  pub reasons : List String

unfoldable pub deliverable_split : TaskSituation → Option SplitProposal
deliverable_split s =
    let items = deliverables s.requirements in
    if ltb (length items) 2
    then none
    else some (record {
      operator = "deliverable_split";
      objectives = map (λ (r : Requirement). r.text) items;
      sequential = false;
      reasons = "multiple independently traceable deliverables" ∷ [];
    })

unfoldable pub workflow_split : TaskSituation → Option SplitProposal
workflow_split s =
    if ltb (length s.skill_steps) 2
    then none
    else some (record {
      operator = "workflow_split";
      objectives = s.skill_steps;
      sequential = true;
      reasons = "multi-stage Skill workflow" ∷ [];
    })

unfoldable pub evidence_split : TaskSituation → Option SplitProposal
evidence_split s =
    if not (is_nonempty s.unresolved_questions)
    then none
    else some (record {
      operator = "evidence_split";
      objectives = "Resolve task-blocking questions with repository evidence." ∷ s.objective ∷ [];
      sequential = true;
      reasons = "grounding requires bounded probe work" ∷ [];
    })

-- `any("write_paths=" in item for item in situation.constraints)`
unfoldable pub needs_write : TaskSituation → Bool
unfolding has_text
needs_write s = any (has_text "write_paths=") s.constraints

unfoldable pub capability_split : TaskSituation → Option SplitProposal
unfolding needs_write
capability_split s =
    if not (needs_write s) || ltb (length s.available_worker_ids) 2
    then none
    else some (record {
      operator = "capability_split";
      objectives = "Perform bounded read-only analysis." ∷ "Implement the verified change." ∷ [];
      sequential = true;
      reasons = "analysis and patch execution require different capabilities" ∷ [];
    })

unfoldable pub private_external : TaskSituation → Bool
private_external s =
    is_subset ("data_classification=private" ∷ "external_policy=allow" ∷ []) s.constraints

unfoldable pub risk_split : TaskSituation → Option SplitProposal
unfolding private_external
risk_split s =
    if not (private_external s)
    then none
    else some (record {
      operator = "risk_split";
      objectives = "Prepare the minimum external context scope." ∷ s.objective ∷ [];
      sequential = true;
      reasons = "private external delegation requires a consent gate" ∷ [];
    })

unfoldable pub verification_split : TaskSituation → Option SplitProposal
verification_split s =
    if ltb (length (deliverables s.requirements)) 2
    then none
    else some (record {
      operator = "verification_split";
      objectives = "Verify cross-deliverable consistency and requirement coverage." ∷ [];
      sequential = true;
      reasons = "multiple outputs require integration verification" ∷ [];
    })

-- `a or b` of two proposals
abbrev pub or_else : Option SplitProposal → Option SplitProposal → Option SplitProposal
or_else none other = other
or_else (some p) other = some p

unfoldable pub choose_primary_split : TaskSituation → Option SplitProposal
unfolding workflow_split deliverable_split evidence_split capability_split risk_split
choose_primary_split s =
    or_else
      (or_else (or_else (or_else (workflow_split s) (deliverable_split s)) (evidence_split s))
        (capability_split s))
      (risk_split s)

unfoldable pub requirements_for_objective : TaskSituation → String → List Requirement
requirements_for_objective s objective =
    let matching =
      filter (λ (r : Requirement). r.text == objective) (deliverables s.requirements) in
    if is_nonempty matching then matching else s.requirements.items

pub record ShapeAssessment : Type 0 where
  pub shape : ExecutionShape
  pub score : ℕ
  pub reasons : List String

-- `max(1, n - 1)`
abbrev pub split_score : ℕ → ℕ
split_score n = if ltb 1 (n - 1) then n - 1 else 1

unfoldable pub assess_shape : TaskSituation → ShapeAssessment
unfolding choose_primary_split
assess_shape s = elim (choose_primary_split s) [
  | none ↦ record {
    shape = fast_path;
    score = 0;
    reasons = "one bounded deliverable has no profitable split" ∷ [];
  }
  | some p ↦ record {
    shape = graph;
    score = split_score (length p.objectives);
    reasons = p.reasons;
  }
]

pub record AtomicityAssessment : Type 0 where
  pub atomic : Bool
  pub reasons : List String

-- The list `reasons` of `check_atomicity`.
unfoldable pub atomicity_reasons : TaskNodeContract → ℕ → Bool → List String
unfolding reason_if
atomicity_reasons n eligible_worker_count merge_cost_high =
    reason_if (ltb 1 (length n.requirement_refs)) "node covers multiple required outcomes"
    ++ (reason_if (is_blank n.objective) "node objective is empty"
        ++ (reason_if (not (is_verifiable n.verification))
              "node has no executable verifier contract"
            ++ (reason_if (ltb eligible_worker_count 1) "node has no eligible worker"
                ++ reason_if merge_cost_high "coordination or merge cost is too high")))

unfoldable pub check_atomicity : TaskNodeContract → ℕ → Bool → AtomicityAssessment
unfolding atomicity_reasons
check_atomicity n eligible_worker_count merge_cost_high =
    let reasons = atomicity_reasons n eligible_worker_count merge_cost_high in
    record { atomic = not (is_nonempty reasons); reasons = reasons }

abbrev pub is_closing : NodeKind → Bool
is_closing verify = true
is_closing merge = true
is_closing decision = true
is_closing wait = true
is_closing _ = false

unfoldable pub should_stop_decomposing : TaskNodeContract → ℕ → ℕ → Bool
should_stop_decomposing n depth max_depth =
    (leb max_depth depth || is_closing n.kind) || leb (length n.requirement_refs) 1
