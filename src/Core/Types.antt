-- ===== src/Core/Types.antt =====
-- The enumerations and records of c4harness/core/graph.py. A `Path` is its text; a tuple, a list and
-- a set of texts are lists; a dict is an association list in insertion order. Weights of soft
-- capabilities are parts per thousand, since there are no floats.
use Prim.Native.Char.{code}
use c4harness.Base.{
  ℕ, String, Bool, true, false, ◌&&◌, ◌||◌, not, Option, none, some, List, [], ◌∷◌, Dict, ltb, leb,
  contains, ◌==◌, string_eq, filter, map, to_set,
}
use c4harness.Core.Errors.{Result, ok, err, value_error, raise_if, ◌>>◌}

pub data InteractionMode : Type 0 where
  execute plan : InteractionMode

pub data RequirementKind : Type 0 where
  deliverable constraint preference acceptance : RequirementKind

pub data NodeKind : Type 0 where
  probe work verify merge decision wait : NodeKind

pub data ExecutionMode : Type 0 where
  read_only patch execute monitor : ExecutionMode

pub data ExecutionShape : Type 0 where
  fast_path graph : ExecutionShape

-- `str.isspace` of one character
unfoldable pub is_space : ℕ → Bool
is_space c =
    (leb 9 c && leb c 13)
    || (leb 28 c && leb c 32)
    || (leb 133 c && leb c 133)
    || (leb 160 c && leb c 160)
    || (leb 5760 c && leb c 5760)
    || (leb 8192 c && leb c 8202)
    || (leb 8232 c && leb c 8233)
    || (leb 8239 c && leb c 8239)
    || (leb 8287 c && leb c 8287)
    || (leb 12288 c && leb c 12288)

-- `not text.strip()`
unfoldable pub is_blank : String → Bool
unfolding is_space
is_blank String.[] = true
is_blank (String.◌∷◌ c s) = is_space (code c) && is_blank s

pub record Requirement : Type 0 where
  pub id : String
  pub text : String
  pub kind : RequirementKind
  pub required : Bool

-- `Requirement.__post_init__`
unfoldable pub make_requirement : Requirement → Result Requirement
make_requirement r = do
  raise_if (is_blank r.id) (value_error "Requirement id cannot be empty.")
  raise_if (is_blank r.text) (value_error "Requirement text cannot be empty.")
  ok r

pub record RequirementLedger : Type 0 where
  pub items : List Requirement

-- `len(ids) != len(set(ids))`
unfoldable pub has_duplicates : List String → Bool
has_duplicates [] = false
has_duplicates (x ∷ xs) = contains xs x || has_duplicates xs

-- `RequirementLedger.__post_init__`
unfoldable pub make_ledger : List Requirement → Result RequirementLedger
unfolding has_duplicates
make_ledger items = do
  raise_if (has_duplicates (map (λ r. r.id) items)) (value_error "Requirement ids must be unique.")
  ok (record { items = items })

-- `required_ids`, `deliverables`
unfoldable pub required_ids : RequirementLedger → List String
required_ids ledger = to_set (map (λ r. r.id) (filter (λ r. r.required) ledger.items))

abbrev pub is_deliverable : RequirementKind → Bool
is_deliverable deliverable = true
is_deliverable _ = false

unfoldable pub deliverables : RequirementLedger → List Requirement
deliverables ledger = filter (λ r. is_deliverable r.kind) ledger.items

pub record AcceptanceCriterion : Type 0 where
  pub id : String
  pub description : String
  pub check : String
  pub requirement_refs : List String

unfoldable pub make_criterion : AcceptanceCriterion → Result AcceptanceCriterion
make_criterion c = do
  raise_if (is_blank c.id || is_blank c.description)
      (value_error "Acceptance criterion id and description are required.")
  ok c

pub record RootContract : Type 0 where
  pub criteria : List AcceptanceCriterion
  pub merge_strategy : String

unfoldable pub make_root_contract : List AcceptanceCriterion → Result RootContract
make_root_contract [] =
    err (value_error "Root contract requires at least one acceptance criterion.")
make_root_contract (c ∷ cs) =
    ok (record { criteria = c ∷ cs; merge_strategy = "orchestrator_review" })

pub record HardCapabilityRequirements : Type 0 where
  pub modalities : List String
  pub tools : List String
  pub write_isolation : List String
  pub network_required : Bool
  pub structured_output_required : Bool
  pub min_context_tokens : ℕ
  pub persistent_session_required : Bool
  pub provider_protocols : List String
  pub privacy_zones : List String

pub record WorkerCapabilities : Type 0 where
  pub modalities : List String
  pub tools : List String
  pub write_isolation : String
  pub network : Bool
  pub structured_output : Bool
  pub context_tokens : ℕ
  pub persistent_session : Bool
  pub provider_protocol : String
  pub privacy_zone : String
  pub soft : Dict String ℕ

pub record WorkerArm : Type 0 where
  pub id : String
  pub backend : String
  pub harness : String
  pub model : String
  pub model_alias : Option String
  pub model_version : Option String
  pub policy_profile : String
  pub enabled : Bool
  pub capabilities : WorkerCapabilities

pub record VerificationContract : Type 0 where
  pub deterministic_checks : List String
  pub evidence_requirements : List String
  pub semantic_check : Option String
  pub root_contribution : String

-- `bool(xs)` of a list and of an optional text
abbrev pub is_nonempty {ℓ} : {A : Type ℓ} → List A → Bool
is_nonempty [] = false
is_nonempty (_ ∷ _) = true

abbrev pub is_set : Option String → Bool
is_set none = false
is_set (some s) = not (s == "")

unfoldable pub is_verifiable : VerificationContract → Bool
is_verifiable c =
    is_nonempty c.deterministic_checks
    || is_nonempty c.evidence_requirements
    || is_set c.semantic_check

pub record TaskNodeContract : Type 0 where
  pub objective : String
  pub kind : NodeKind
  pub id : String
  pub requirement_refs : List String
  pub context_packs : List String
  pub artifact_inputs : List String
  pub allowed_paths : List String
  pub write_paths : List String
  pub output_type : String
  pub execution_mode : ExecutionMode
  pub hard_capabilities : HardCapabilityRequirements
  pub soft_capabilities : Dict String ℕ
  pub verification : VerificationContract
  pub max_attempts : ℕ
  pub assigned_worker_id : Option String

abbrev pub is_patch : ExecutionMode → Bool
is_patch patch = true
is_patch _ = false

-- `TaskNodeContract.__post_init__`
unfoldable pub make_node : TaskNodeContract → Result TaskNodeContract
make_node n = do
  raise_if (is_blank n.id || is_blank n.objective)
      (value_error "Task node id and objective are required.")
  raise_if (ltb n.max_attempts 1) (value_error "Task node max_attempts must be at least one.")
  raise_if (is_patch n.execution_mode && not (is_nonempty n.write_paths))
      (value_error "Patch task nodes require at least one write path.")
  ok n

pub record GraphEdge : Type 0 where
  pub source : String
  pub target : String
  pub edge_type : String

pub record TaskContractGraph : Type 0 where
  pub nodes : Dict String TaskNodeContract
  pub edges : List GraphEdge
  pub version : ℕ

pub record TaskSituation : Type 0 where
  pub task_id : String
  pub objective : String
  pub repo : String
  pub requirements : RequirementLedger
  pub root_contract : RootContract
  pub interaction_mode : InteractionMode
  pub active_skills : List String
  pub skill_steps : List String
  pub constraints : List String
  pub environment_facts : List String
  pub unresolved_questions : List String
  pub available_worker_ids : List String
  pub historical_profile_summary : List String
  pub security_context : List String
