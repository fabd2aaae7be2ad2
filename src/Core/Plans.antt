-- ===== src/Core/Plans.antt =====
-- `DecompositionPlan.validate` accepts exactly the plans that are complete and can be checked.
use c4harness.Base.{
  contains_tail, ◌≡◌, ◌↔◌, inl, inr, refl, String, true, false, not, ◌&&◌, List, [], ◌∷◌, values,
  contains, contains-cons, contains_self, filter, map, to_set, All, string_eq, arith, Bool-cases,
}
use c4harness.Core.Errors.{ok}
use c4harness.Core.Types.{
  Requirement, AcceptanceCriterion, TaskNodeContract, required_ids, is_nonempty, is_verifiable,
}
use c4harness.Core.Graph.{
  DecompositionPlan, minus, flat, requirement_coverage, is_executable, validate, validate_acyclic,
}
use c4harness.Core.Acyclic.Outgoing.{ends_known}
use c4harness.Core.Acyclic.Decides.{IsAcyclic, validate_acyclic_decides}

abbrev pub IsSubset : List String → List String → Type 0
IsSubset a b = (x : String) → contains a x ≡ true → contains b x ≡ true

-- Nothing is left of a subset.
minus-empty : (a b : List String) → (is_nonempty (minus a b) ≡ false) ↔ IsSubset a b
unfolding filter contains
minus-empty [] b = (λ h x m. cc, λ h. refl)
minus-empty (y ∷ a) b = elim (Bool-cases (contains b y)) [
  | inl known ↦ (
    λ h x m.
        let rest : is_nonempty (minus a b) ≡ false = ground arith in
        ground (arith, (minus-empty a b).0 rest x, contains-cons y a x),
    λ h. let rest = (minus-empty a b).1 (λ x m. h x (contains_tail y a x m)) in ground arith,
  )
  | inr unknown ↦ (λ h x m. ground arith, λ h. ground (arith, h y (contains_self y a)))
]

-- The nodes that do work have something to check it by.
abbrev pub IsCheckable : List TaskNodeContract → Type 0
IsCheckable nodes =
    All (λ n. (is_executable n.kind ≡ true) → is_verifiable n.verification ≡ true) nodes

unverifiable-empty :
    (nodes : List TaskNodeContract)
    → (is_nonempty (filter (λ n. is_executable n.kind && not (is_verifiable n.verification)) nodes)
        ≡ false)
      ↔ IsCheckable nodes
unfolding filter
unverifiable-empty [] = ground arith
unverifiable-empty (n ∷ nodes) = ground (arith, unverifiable-empty nodes)

-- The ids in the ledger of a plan, and those that its root contract refers to.
abbrev pub ledger_ids : DecompositionPlan → List String
ledger_ids p = map (λ (r : Requirement). r.id) p.situation.requirements.items

abbrev pub root_refs : DecompositionPlan → List String
root_refs p = to_set (
    flat (map (λ (c : AcceptanceCriterion). c.requirement_refs) p.situation.root_contract.criteria))

module _ (p : DecompositionPlan) where
  record Tests : Type 0 where
    some_node : is_nonempty p.graph.nodes ≡ true
    acyclic : validate_acyclic p.graph ≡ ok tt
    known : is_nonempty (minus (requirement_coverage p.graph) (ledger_ids p)) ≡ false
    known_root : is_nonempty (minus (root_refs p) (ledger_ids p)) ≡ false
    covered :
        is_nonempty (minus (required_ids p.situation.requirements) (requirement_coverage p.graph))
        ≡ false
    checkable :
        is_nonempty (
          filter
            (λ n. is_executable n.kind && not (is_verifiable n.verification))
            (values p.graph.nodes))
        ≡ false

  validate-Tests : validate p ≡ ok tt → Tests
  unfolding validate
  validate-Tests h = record {
    some_node = ground arith;
    acyclic = ground arith;
    known = ground arith;
    known_root = ground arith;
    covered = ground arith;
    checkable = ground arith;
  }

  Tests-validate : Tests → validate p ≡ ok tt
  unfolding validate
  Tests-validate t =
      ground (arith, t.some_node, t.acyclic, t.known, t.known_root, t.covered, t.checkable)

  -- For a plan whose edges join nodes of its graph, `validate` returns exactly if the plan has a node,
  -- the graph has no cycle, the nodes and the root contract refer to requirements of the ledger only, the
  -- nodes cover every required requirement, and each node that does work has a verification contract.
  pub validate_iff :
      ends_known p.graph ≡ true
      → (validate p ≡ ok tt) ↔ (
          (is_nonempty p.graph.nodes ≡ true)
          × IsAcyclic p.graph
          × IsSubset (requirement_coverage p.graph) (ledger_ids p)
          × IsSubset (root_refs p) (ledger_ids p)
          × IsSubset (required_ids p.situation.requirements) (requirement_coverage p.graph)
          × IsCheckable (values p.graph.nodes))
  validate_iff known = elim (validate_acyclic_decides p.graph known) [
    | inl (valid, free) ↦ (
      λ h.
          let t = validate-Tests h in
          (
            t.some_node,
            free,
            (minus-empty _ _).0 t.known,
            (minus-empty _ _).0 t.known_root,
            (minus-empty _ _).0 t.covered,
            (unverifiable-empty _).0 t.checkable,
          ),
      λ (some_node, _, a, b, c, d). Tests-validate (record {
        some_node = some_node;
        acyclic = valid;
        known = (minus-empty _ _).1 a;
        known_root = (minus-empty _ _).1 b;
        covered = (minus-empty _ _).1 c;
        checkable = (unverifiable-empty _).1 d;
      }),
    )
    | inr (invalid, u, w) ↦ (
      λ h. absurd (ground (arith, (validate-Tests h).acyclic)),
      λ (_, free, _, _, _, _). absurd (free u w),
    )
  ]
