-- ===== src/Core/Graph.antt =====
-- `TaskContractGraph` and `DecompositionPlan` of c4harness/core/graph.py. The two Python sets of
-- `validate_acyclic` are lists; its nested `visit` takes fuel, one unit for each level of recursion.
use Prim.Native.String.{◌++◌ as ◌<>◌}
use c4harness.Base.{
  ℕ, zero, suc, String, Bool, true, false, ◌&&◌, ◌||◌, not, none, some, List, [], ◌∷◌, ◌++◌, Dict,
  keys, values, lookup, insert, has_key, contains, discard, filter, map, length, ◌==◌, string_eq,
  sorted, to_set,
}
use c4harness.Core.Errors.{
  Error, Result, ok, err, value_error, key_error, recursion_error, raise_if, for_each, ◌>>=◌, ◌>>◌,
}
use c4harness.Core.Types.{
  NodeKind, probe, work, merge, ExecutionShape, TaskNodeContract, GraphEdge, TaskContractGraph,
  TaskSituation, Requirement, AcceptanceCriterion, is_verifiable, required_ids, is_nonempty,
}

unfoldable pub add_node : TaskContractGraph → TaskNodeContract → Result TaskContractGraph
add_node g node = do
  raise_if (has_key node.id g.nodes) (value_error ("Duplicate task node id: " <> node.id))
  ok (record g { nodes = insert node.id node g.nodes })

-- `outgoing: dict[str, list[str]]` of `validate_acyclic`
unfoldable pub no_targets : List String → Dict String (List String)
no_targets [] = []
no_targets (node_id ∷ ids) = (node_id, []) ∷ no_targets ids

unfoldable pub append_target :
    GraphEdge → Dict String (List String) → Result (Dict String (List String))
append_target e outgoing = elim (lookup e.source outgoing) [
  | none ↦ err (key_error e.source)
  | some targets ↦ ok (insert e.source (targets ++ e.target ∷ []) outgoing)
]

unfoldable pub outgoing_of : TaskContractGraph → Result (Dict String (List String))
unfolding no_targets append_target for_each
outgoing_of g = for_each append_target g.edges (no_targets (keys g.nodes))

-- The two sets that the nested function `visit` mutates.
pub record Dfs : Type 0 where
  pub visiting : List String
  pub visited : List String

abbrev pub cycle_error : Error
cycle_error = value_error "Task contract graph must be acyclic."

unfoldable pub visit : ℕ → Dict String (List String) → String → Dfs → Result Dfs
visit zero outgoing node_id s = err recursion_error
visit (suc fuel) outgoing node_id s = elim (contains s.visiting node_id) [
  | true ↦ err cycle_error
  | false ↦ elim (contains s.visited node_id) [
    | true ↦ ok s
    | false ↦ elim (lookup node_id outgoing) [
      | none ↦ err (key_error node_id)
      | some targets ↦
          for_each (visit fuel outgoing) targets (record s { visiting = node_id ∷ s.visiting })
          >>= λ s'.
              ok (record { visiting = discard node_id s'.visiting; visited = node_id ∷ s'.visited })
    ]
  ]
]

-- The stack of calls holds no node twice, so one more level than there are nodes is enough.
unfoldable pub search_all : TaskContractGraph → Result Dfs
unfolding outgoing_of visit
search_all g = outgoing_of g >>= λ outgoing.
    for_each (visit (suc (length (keys g.nodes))) outgoing) (keys g.nodes)
      (record { visiting = []; visited = [] })

unfoldable pub validate_acyclic : TaskContractGraph → Result (Unit {0})
unfolding search_all
validate_acyclic g = search_all g >>= λ _. ok tt

-- `edges.append`, then `edges.pop` if the graph has become cyclic: the graph that the caller keeps
-- is the old one.
unfoldable pub add_edge : TaskContractGraph → GraphEdge → Result TaskContractGraph
add_edge g e = do
  raise_if (not (has_key e.source g.nodes) || not (has_key e.target g.nodes))
      (value_error "Graph edges must reference existing nodes.")
  raise_if (e.source == e.target) (value_error "Task graph cannot contain self edges.")
  validate_acyclic (record g { edges = g.edges ++ e ∷ [] })
  ok (record g { edges = g.edges ++ e ∷ [] })

abbrev pub is_requires : GraphEdge → Bool
is_requires e = e.edge_type == "requires"

-- `ready_nodes` of the graph
unfoldable pub blocked_ids : List GraphEdge → List String → List String
blocked_ids edges completed =
    map (λ e. e.target) (filter (λ e. is_requires e && not (contains completed e.source)) edges)

unfoldable pub ready_nodes : TaskContractGraph → List String → List TaskNodeContract
unfolding blocked_ids
ready_nodes g completed =
    let blocked = blocked_ids g.edges completed in
    values (
      filter (λ (node_id, _). not (contains completed node_id) && not (contains blocked node_id))
        g.nodes)

unfoldable pub flat {ℓ} : {A : Type ℓ} → List (List A) → List A
flat [] = []
flat (xs ∷ rest) = xs ++ flat rest

unfoldable pub requirement_coverage : TaskContractGraph → List String
unfolding flat
requirement_coverage g = to_set (flat (map (λ n. n.requirement_refs) (values g.nodes)))

-- Without `assignment_records`, a dictionary of any values, which `validate` does not read.
pub record DecompositionPlan : Type 0 where
  pub situation : TaskSituation
  pub shape : ExecutionShape
  pub graph : TaskContractGraph
  pub reasons : List String

-- `a - b` of two sets, as the items of `a` in the order in which they stand
abbrev pub minus : List String → List String → List String
minus a b = filter (λ x. not (contains b x)) a

-- `", ".join(items)`
unfoldable pub join : List String → String
join [] = ""
join (x ∷ []) = x
join (x ∷ xs) = x <> ", " <> join xs

-- `"; ".join(texts)`
unfoldable pub join_semicolon : List String → String
join_semicolon [] = ""
join_semicolon (x ∷ []) = x
join_semicolon (x ∷ xs) = x <> "; " <> join_semicolon xs

-- The node kinds that do work whose result has to be checked.
abbrev pub is_executable : NodeKind → Bool
is_executable probe = true
is_executable work = true
is_executable merge = true
is_executable _ = false

unfoldable pub validate : DecompositionPlan → Result (Unit {0})
unfolding requirement_coverage join
validate p =
    let requirement_ids = map (λ (r : Requirement). r.id) p.situation.requirements.items in
    let referenced = requirement_coverage p.graph in
    let unknown = minus referenced requirement_ids in
    let root_refs = to_set (
      flat (
        map (λ (c : AcceptanceCriterion). c.requirement_refs)
          p.situation.root_contract.criteria)) in
    let unknown_root = minus root_refs requirement_ids in
    let missing = minus (required_ids p.situation.requirements) referenced in
    let unverifiable =
      filter (λ (n : TaskNodeContract). is_executable n.kind && not (is_verifiable n.verification))
        (values p.graph.nodes) in
    (do
      raise_if (not (is_nonempty p.graph.nodes))
          (value_error "Decomposition plan requires at least one node.")
      validate_acyclic p.graph
      raise_if (is_nonempty unknown)
          (value_error ("Task graph references unknown requirements: " <> join (sorted unknown)))
      raise_if (is_nonempty unknown_root) (
          value_error
            ("Root contract references unknown requirements: " <> join (sorted unknown_root)))
      raise_if (is_nonempty missing) (
          value_error
            ("Task graph does not cover required requirements: " <> join (sorted missing)))
      raise_if (is_nonempty unverifiable) (
          value_error (
            "Executable task nodes require verification contracts: "
            <> join (map (λ (n : TaskNodeContract). n.id) unverifiable))))
