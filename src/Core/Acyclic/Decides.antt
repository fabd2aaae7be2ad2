-- ===== src/Core/Acyclic/Decides.antt =====
-- `validate_acyclic` decides acyclicity, and `add_edge` keeps a graph acyclic.
use c4harness.Base.{
  suc, String, ◌≡◌, refl, ◌∙◌, true, [], keys, has_key, contains-keys, length, string_eq, inl, inr,
  has_key-eq_true, ◌⊎◌, subst,
}
use c4harness.Core.Errors.{Result, ok, err, for_each, ◌>>=◌}
use c4harness.Core.Types.{TaskContractGraph}
use c4harness.Core.Walks.{Walk, one, more, Walk-map}
use c4harness.Core.Graph.{Dfs, visit, search_all, validate_acyclic, cycle_error}
use c4harness.Core.Acyclic.Search.{Edge, Outcome, search-Outcome, topological-acyclic}
use c4harness.Core.Acyclic.Outgoing.{linked, ends_known, Adjacency, outgoing_of-Adjacency}
use native.Mathlib.Nat.{le_refl}

-- A walk along the edges of a graph, and a graph with none that returns to its start.
abbrev pub GraphWalk : TaskContractGraph → String → String → Type 0
GraphWalk g = Walk (λ u v. linked g.edges u v ≡ true)

abbrev pub IsAcyclic : TaskContractGraph → Type 0
IsAcyclic g = (u : String) → ¬ GraphWalk g u u

-- The search ends with every node in a topological list, or finds a cycle.
abbrev Verdict : TaskContractGraph → Result Dfs → Type 0
Verdict g (ok s) = IsAcyclic g
Verdict g (err e) = (e ≡ cycle_error) × (u : String) × GraphWalk g u u

module _ (g : TaskContractGraph) (a : Adjacency g) where
  open a use {outgoing, same_keys, edges_iff, closed}

  -- The first edge of a walk starts at a node.
  source_known : (u : String) {v : String} → Walk (Edge outgoing) u v → has_key u outgoing ≡ true
  source_known u (one e) = has_key-eq_true u outgoing e.listed
  source_known u (more w _) = source_known u w

  Outcome-Verdict :
      (r : Result Dfs)
      → Outcome outgoing (record { visiting = []; visited = [] }) (keys g.nodes) r
      → Verdict g r
  Outcome-Verdict (err e) (same, u, w) = (same, u, Walk-map (λ x y. (edges_iff x y).0) w)
  Outcome-Verdict (ok s) (_, top, _, found) = λ u w.
      let w' = Walk-map (λ x y. (edges_iff x y).1) w in
      let known = rw same_keys at (contains-keys outgoing u ∙ source_known u w') in
      topological-acyclic outgoing s.visited u top (found u known) w'

search_all-Verdict : (g : TaskContractGraph) → ends_known g ≡ true → Verdict g (search_all g)
unfolding search_all
search_all-Verdict g h =
    let a = outgoing_of-Adjacency g h in
    rw (a.built, search_all)
      (Outcome-Verdict g a _ (
        subst
          (λ ks.
            Outcome a.outgoing (record { visiting = []; visited = [] }) ks
              (for_each (visit (suc (length ks)) a.outgoing) ks
                (record { visiting = []; visited = [] })))
          a.same_keys
          (search-Outcome a.outgoing a.closed (suc (length (keys a.outgoing))) (le_refl _))))

abbrev Decision : TaskContractGraph → Result (Unit {0}) → Type 0
Decision g r = (r ≡ ok tt) × IsAcyclic g ⊎ (r ≡ err cycle_error) × (u : String) × GraphWalk g u u

-- On a graph whose edges join nodes, `validate_acyclic` returns and the graph has no cycle, or it
-- raises its error and there is a walk from some node to itself.
pub validate_acyclic_decides :
    (g : TaskContractGraph)
    → ends_known g ≡ true
    → (validate_acyclic g ≡ ok tt) × IsAcyclic g
      ⊎ (validate_acyclic g ≡ err cycle_error) × (u : String) × GraphWalk g u u
unfolding validate_acyclic
validate_acyclic_decides g h = at (search_all g) (search_all-Verdict g h)
  where
    at : (r : Result Dfs) → Verdict g r → Decision g (r >>= λ _. ok tt)
    at (ok s) v = inl (refl, v)
    at (err e) (same, u, w) = inr (rw same refl, u, w)
