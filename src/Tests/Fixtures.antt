-- ===== src/Tests/Fixtures.antt =====
-- Data that the tests share: a chain of three nodes, and a runner for which the second one fails.
use mathlib.Core.List.Permᴰ as PermD
use mathlib.Core.List.{Permᴰ}
use c4harness.Base.{String, true, false, none, some, List, [], ◌∷◌, ◌==◌, string_eq, if◌then◌else◌}
use c4harness.Core.Types.{
  work, read_only, HardCapabilityRequirements, VerificationContract, TaskNodeContract, GraphEdge,
  TaskContractGraph,
}
use c4harness.RunGraph.{RunnerCall, returned, raised}

abbrev pub no_needs : HardCapabilityRequirements
no_needs = record {
  modalities = [];
  tools = [];
  write_isolation = [];
  network_required = false;
  structured_output_required = false;
  min_context_tokens = 0;
  persistent_session_required = false;
  provider_protocols = [];
  privacy_zones = [];
}

abbrev pub some_checks : VerificationContract
some_checks = record {
  deterministic_checks = "pytest" ∷ [];
  evidence_requirements = [];
  semantic_check = none;
  root_contribution = "";
}

abbrev pub node : String → String → TaskNodeContract
node name path = record {
  objective = "do it";
  kind = work;
  id = name;
  requirement_refs = [];
  context_packs = [];
  artifact_inputs = [];
  allowed_paths = [];
  write_paths = path ∷ [];
  output_type = "text";
  execution_mode = read_only;
  hard_capabilities = no_needs;
  soft_capabilities = [];
  verification = some_checks;
  max_attempts = 2;
  assigned_worker_id = none;
}

abbrev pub requires_edge : String → String → GraphEdge
requires_edge u v = record { source = u; target = v; edge_type = "requires" }

abbrev pub graph_of : List TaskNodeContract → List GraphEdge → TaskContractGraph
graph_of nodes edges = record { nodes = with_ids nodes; edges = edges; version = 1 }
  where
    with_ids : List TaskNodeContract → List (String × TaskNodeContract)
    with_ids [] = []
    with_ids (n ∷ ns) = (n.id, n) ∷ with_ids ns

abbrev pub three_nodes : List TaskNodeContract
three_nodes = node "a" "src/a.py" ∷ node "b" "src/b.py" ∷ node "c" "src" ∷ []

abbrev pub no_edges : TaskContractGraph
no_edges = graph_of three_nodes []

abbrev pub one_edge : TaskContractGraph
one_edge = graph_of three_nodes (requires_edge "a" "b" ∷ [])

abbrev pub empty_graph : TaskContractGraph
empty_graph = graph_of [] []

abbrev pub only_a : TaskContractGraph
only_a = graph_of (node "a" "src/a.py" ∷ []) []

-- a → b → c
abbrev pub chain : TaskContractGraph
chain = graph_of three_nodes (requires_edge "a" "b" ∷ requires_edge "b" "c" ∷ [])

abbrev pub b_fails : TaskNodeContract → RunnerCall String
b_fails n =
    if n.id == "b"
    then raised "RuntimeError: no"
    else returned (record { success = true; error = ""; result = some "done" })

abbrev pub as_submitted : List TaskNodeContract → List TaskNodeContract
as_submitted batch = batch

pub as_submitted-Perm : (batch : List TaskNodeContract) → Permᴰ (as_submitted batch) batch
as_submitted-Perm batch = PermD.refl batch

abbrev pub same_path : String → String
same_path path = path
