-- ===== src/Core/Acyclic/Edges.antt =====
-- `add_node` and `add_edge` keep a graph well formed and acyclic, and `add_edge` turns an edge away
-- exactly when it would close a cycle.
use c4harness.Base.{
  String, ◌≡◌, ◌≢◌, refl, sym, ◌∙◌, Bool, true, ◌&&◌, ◌||◌, List, [], ◌∷◌, ◌++◌, has_key, all, any,
  ◌==◌, string_eq, arith, inl, inr, ◌⊎◌, Bool-cases,
}
use c4harness.Core.Errors.{ok, err, ◌>>◌}
use c4harness.Core.Types.{GraphEdge, TaskContractGraph}
use c4harness.Core.Walks.{one, more, Walk-map, Walk-append}
use c4harness.Core.Graph.{validate_acyclic, add_edge, cycle_error}
use c4harness.Core.Acyclic.Outgoing.{linked, ends_known}
use c4harness.Core.Acyclic.Decides.{GraphWalk, IsAcyclic, validate_acyclic_decides}

abbrev with_edge : TaskContractGraph → GraphEdge → TaskContractGraph
with_edge g e = record g { edges = g.edges ++ e ∷ [] }

linked-append :
    (es : List GraphEdge) (e : GraphEdge) (u v : String)
    → linked (es ++ e ∷ []) u v ≡ (linked es u v || (u == e.source && v == e.target))
unfolding linked any
linked-append [] e u v = ground arith
linked-append (f ∷ es) e u v = ground (arith, linked-append es e u v)

all-append :
    {A : Type 0} (p : A → Bool) (xs : List A) (x : A) → all p (xs ++ x ∷ []) ≡ (all p xs && p x)
unfolding all
all-append p [] x = ground arith
all-append p (y ∷ xs) x = ground (arith, all-append p xs x)

-- `u` is `v`, or a walk leads from `u` to `v`.
abbrev Leads : TaskContractGraph → String → String → Type 0
Leads g u v = (u ≡ v) ⊎ GraphWalk g u v

Leads-step :
    (g : TaskContractGraph) {u v w : String} → Leads g u v → linked g.edges v w ≡ true → Leads g u w
Leads-step g (inl same) l = inr (one (rw same l))
Leads-step g (inr walk) l = inr (more walk l)

-- A walk of the longer graph does without the new edge, or leads to its source and on from its target.
Walk-with_edge :
    (g : TaskContractGraph) (e : GraphEdge) {u v : String}
    → GraphWalk (with_edge g e) u v
    → GraphWalk g u v ⊎ Leads g u e.source × Leads g e.target v
Walk-with_edge g e {u} {v} (one r) = elim (Bool-cases (linked g.edges u v)) [
  | inl old ↦ inl (one old)
  | inr new ↦ inr (
    inl (ground (arith, linked-append g.edges e u v)),
    inl (ground (arith, linked-append g.edges e u v)),
  )
]
Walk-with_edge g e {u} {v} (more {v = m} w r) = elim (Bool-cases (linked g.edges m v)) [
  | inl old ↦ elim (Walk-with_edge g e w) [
    | inl before ↦ inl (more before old)
    | inr (to, from) ↦ inr (to, Leads-step g from old)
  ]
  | inr new ↦
      let at_source : m ≡ e.source = ground (arith, linked-append g.edges e m v) in
      let at_target : e.target ≡ v = ground (arith, linked-append g.edges e m v) in
      elim (Walk-with_edge g e w) [
        | inl before ↦ inr (inr (rw at_source at before), inl at_target)
        | inr (to, _) ↦ inr (to, inl at_target)
      ]
]

ends_known-with_edge :
    (g : TaskContractGraph) (e : GraphEdge)
    → ends_known g ≡ true
    → has_key e.source g.nodes ≡ true
    → has_key e.target g.nodes ≡ true
    → ends_known (with_edge g e) ≡ true
unfolding ends_known
ends_known-with_edge g e h s t = ground (
  arith,
  all-append (λ (d : GraphEdge). has_key d.source g.nodes && has_key d.target g.nodes) g.edges e,
)

-- The new edge closes a cycle exactly when its target leads back to its source.
cycle-with_edge :
    (g : TaskContractGraph) (e : GraphEdge) {u : String}
    → IsAcyclic g
    → e.source ≢ e.target
    → GraphWalk (with_edge g e) u u
    → GraphWalk g e.target e.source
cycle-with_edge g e {u} acyclic distinct w = elim (Walk-with_edge g e w) [
  | inl old ↦ absurd (acyclic u old)
  | inr (inl to, inl from) ↦ absurd (distinct (sym to ∙ sym from))
  | inr (inl to, inr from) ↦ rw to at from
  | inr (inr to, inl from) ↦ rw (← from) at to
  | inr (inr to, inr from) ↦ Walk-append from to
]

linked_old :
    (g : TaskContractGraph) (e : GraphEdge) (a b : String)
    → linked g.edges a b ≡ true
    → linked (g.edges ++ e ∷ []) a b ≡ true
linked_old g e a b l = ground (arith, linked-append g.edges e a b)

linked_new :
    (g : TaskContractGraph) (e : GraphEdge) → linked (g.edges ++ e ∷ []) e.source e.target ≡ true
linked_new g e = ground (arith, linked-append g.edges e e.source e.target)

module _ (g : TaskContractGraph) (e : GraphEdge) where
  back-closes : GraphWalk g e.target e.source → GraphWalk (with_edge g e) e.target e.target
  back-closes w = more (Walk-map (linked_old g e) w) (linked_new g e)

  add_edge_between :
      has_key e.source g.nodes ≡ true
      → has_key e.target g.nodes ≡ true
      → e.source ≢ e.target
      → add_edge g e ≡ (validate_acyclic (with_edge g e) >> ok (with_edge g e))
  unfolding add_edge
  add_edge_between s t distinct = ground arith

  add_edge-eq_ok :
      {g' : TaskContractGraph}
      → add_edge g e ≡ ok g'
      → (has_key e.source g.nodes ≡ true)
        × (has_key e.target g.nodes ≡ true)
        × (validate_acyclic (with_edge g e) ≡ ok tt)
        × (g' ≡ with_edge g e)
  unfolding add_edge
  add_edge-eq_ok h = ground arith

  -- Between two different nodes of an acyclic graph whose edges join nodes, `add_edge` appends the edge and the graph stays
  -- acyclic, or it raises the cycle error; it raises exactly when there is a walk from the target of
  -- the new edge back to its source.
  pub add_edge_correct :
      ends_known g ≡ true
      → IsAcyclic g
      → has_key e.source g.nodes ≡ true
      → has_key e.target g.nodes ≡ true
      → e.source ≢ e.target
      → (add_edge g e ≡ ok (record g { edges = g.edges ++ e ∷ [] }))
          × IsAcyclic (record g { edges = g.edges ++ e ∷ [] })
          × (¬ GraphWalk g e.target e.source)
        ⊎ (add_edge g e ≡ err cycle_error) × GraphWalk g e.target e.source
  add_edge_correct known acyclic s t distinct =
      elim (validate_acyclic_decides (with_edge g e) (ends_known-with_edge g e known s t)) [
        | inl (valid, free) ↦ inl (
          add_edge_between s t distinct ∙ rw valid refl,
          free,
          λ back. free e.target (back-closes back),
        )
        | inr (invalid, u, w) ↦ inr (
          add_edge_between s t distinct ∙ rw invalid refl,
          cycle-with_edge g e acyclic distinct w,
        )
      ]

-- A graph that `add_edge` returns has its edges between nodes and no cycle, whatever was known of
-- the acyclicity of the graph before, and differs from it by the edge alone.
pub add_edge-IsAcyclic :
    (g g' : TaskContractGraph) (e : GraphEdge)
    → ends_known g ≡ true
    → add_edge g e ≡ ok g'
    → (g' ≡ record g { edges = g.edges ++ e ∷ [] }) × (ends_known g' ≡ true) × IsAcyclic g'
add_edge-IsAcyclic g g' e known h =
    let (s, t, valid, same) = add_edge-eq_ok g e h in
    let joined = ends_known-with_edge g e known s t in
    elim (validate_acyclic_decides (with_edge g e) joined) [
      | inl (_, free) ↦ (same, rw same joined, rw same free)
      | inr (invalid, _, _) ↦ cc
    ]
