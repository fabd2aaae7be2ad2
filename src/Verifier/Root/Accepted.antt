-- ===== src/Verifier/Root/Accepted.antt =====
-- What the root verifier takes for an accepted node, and for a graph that is healthy.
use c4harness.Base.{
  Option-cases, ◌≡◌, refl, String, Bool, true, false, some, [], ◌∷◌, Dict, lookup, keys, filter,
  contains, Nodup, values, any, all, string_eq, arith, Bool-cases, inl, inr, ◌==◌,
}
use c4harness.Core.Types.{TaskContractGraph, TaskNodeContract}
use c4harness.Core.Contracts.{VerificationResult}
use c4harness.Scheduler.{
  NodeOutcome, GraphResult, is_succeeded, is_failed, has_failures, deadlock_detected, all_succeeded,
  result_is_terminal,
}
use c4harness.Verifier.Root.{referring, is_nonempty, compute_accepted_nodes, is_accepted_node}

contains-keys-filter :
    {V : Type 0} (p : String × V → Bool) (d : Dict String V) (k : String)
    → contains (keys (filter p d)) k ≡ true
    → contains (keys d) k ≡ true
unfolding contains keys filter
contains-keys-filter p [] k there = cc
contains-keys-filter p ((j, v) ∷ d) k there = ground (arith, contains-keys-filter p d k)

-- A key that a filter keeps has a value that passes it.
lookup-keys-filter :
    {V : Type 0} (p : String × V → Bool) (d : Dict String V) (k : String)
    → Nodup (keys d)
    → contains (keys (filter p d)) k ≡ true
    → (v : V) × (lookup k d ≡ some v) × (p (k, v) ≡ true)
unfolding contains keys filter lookup
lookup-keys-filter p [] k distinct there = cc
lookup-keys-filter p ((j, v) ∷ d) k (new, distinct) there = elim (Bool-cases (k == j)) [
  | inl same ↦
      (v, ground (arith, same), ground (arith, there, same, new, contains-keys-filter p d j))
  | inr other ↦
      let (u, found, passes) = lookup-keys-filter p d k distinct (ground (arith, there, other)) in
      (u, ground (arith, found, other), passes)
]

module _ {R : Type 0} (g : GraphResult R) (verifications : Dict String VerificationResult) where
  -- The node has succeeded, and it has a verification that accepts it.
  abbrev pub IsAccepted : String → Type 0
  IsAccepted nid =
      ((o : NodeOutcome R) × (lookup nid g.node_outcomes ≡ some o) × (is_succeeded o.state ≡ true))
      × ((v : VerificationResult) × (lookup nid verifications ≡ some v) × (v.accepted ≡ true))

  pub compute_accepted_nodes-IsAccepted :
      (nid : String)
      → Nodup (keys verifications)
      → contains (compute_accepted_nodes g verifications) nid ≡ true
      → IsAccepted nid
  unfolding compute_accepted_nodes is_accepted_node
  compute_accepted_nodes-IsAccepted nid distinct there =
      let (v, found, passes) =
        lookup-keys-filter (λ (nid, v). is_accepted_node g nid v) verifications nid distinct
          there in
      at v found passes
    where
      at :
          (v : VerificationResult)
          → lookup nid verifications ≡ some v
          → is_accepted_node g nid v ≡ true
          → IsAccepted nid
      at v found passes = elim (Option-cases (lookup nid g.node_outcomes)) [
        | inl absent ↦ absurd (ground (arith, passes, absent))
        | inr (o, there) ↦
            ((o, there, ground (arith, passes, there)), (v, found, ground (arith, passes, there)))
      ]

-- The node is in the graph, and refers to the requirement.
abbrev pub IsReferring : TaskContractGraph → String → String → Type 0
IsReferring graph ref nid =
    (n : TaskNodeContract) × (lookup nid graph.nodes ≡ some n)
    × (contains n.requirement_refs ref ≡ true)

pub referring-IsReferring :
    (graph : TaskContractGraph) (ref nid : String)
    → Nodup (keys graph.nodes)
    → contains (referring graph ref) nid ≡ true
    → IsReferring graph ref nid
unfolding referring
referring-IsReferring graph ref nid distinct there =
    lookup-keys-filter (λ (nid, node). contains node.requirement_refs ref) graph.nodes nid distinct
      there

all-lookup :
    {V : Type 0} (p : V → Bool) (d : Dict String V) (k : String) (v : V)
    → all p (values d) ≡ true
    → lookup k d ≡ some v
    → p v ≡ true
unfolding all values lookup
all-lookup p [] k v each found = cc
all-lookup p ((j, w) ∷ d) k v each found = ground (arith, all-lookup p d k v)

any-lookup :
    {V : Type 0} (p : V → Bool) (d : Dict String V) (k : String) (v : V)
    → any p (values d) ≡ false
    → lookup k d ≡ some v
    → p v ≡ false
unfolding any values lookup
any-lookup p [] k v none_passes found = cc
any-lookup p ((j, w) ∷ d) k v none_passes found = ground (arith, any-lookup p d k v)

module _ {R : Type 0} (g : GraphResult R) (nid : String) (o : NodeOutcome R)
    (found : lookup nid g.node_outcomes ≡ some o) where
  pub has_failures-lookup : has_failures g ≡ false → is_failed o.state ≡ false
  unfolding has_failures
  has_failures-lookup healthy =
      any-lookup (λ o. is_failed o.state) g.node_outcomes nid o healthy found

  -- Where every node has come to an end, and the graph is neither failed nor deadlocked, every node has
  -- succeeded.
  pub terminal-is_succeeded :
      has_failures g ≡ false
      → deadlock_detected g ≡ false
      → result_is_terminal g ≡ true
      → is_succeeded o.state ≡ true
  unfolding deadlock_detected all_succeeded
  terminal-is_succeeded healthy moving terminal =
      all-lookup (λ o. is_succeeded o.state) g.node_outcomes nid o
        (ground (arith, healthy, moving, terminal, nonempty)) found
    where
      nonempty_of : (d : Dict String (NodeOutcome R)) → lookup nid d ≡ some o → is_nonempty d ≡ true
      nonempty_of [] there = unfold lookup in cc
      nonempty_of (_ ∷ _) there = refl

      nonempty : is_nonempty g.node_outcomes ≡ true
      nonempty = nonempty_of g.node_outcomes found
