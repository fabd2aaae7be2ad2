-- ===== src/Core/WellFormed.antt =====
-- What `add_node` and `add_edge` make sure of: node ids are the keys and are distinct, and edges join
-- nodes.
use Prim.Native.String.{◌++◌ as ◌<>◌}
use c4harness.Base.{
  has_key-eq_true, ==_refl, inl, inr, Bool-cases, ◌⊎◌, contains_one, ◌∙◌, contains-append, String,
  ◌≡◌, refl, Bool, true, false, some, List, [], ◌∷◌, ◌++◌, Dict, keys, lookup, insert, has_key,
  contains, contains-keys, Nodup, all, lookup-insert, string_eq, arith,
}
use c4harness.Core.Errors.{value_error, err, ok}
use c4harness.Core.Types.{TaskNodeContract, TaskContractGraph, GraphEdge}
use c4harness.Core.Graph.{add_node, add_edge}
use c4harness.Core.Acyclic.Outgoing.{ends_known}
use c4harness.Core.Acyclic.Decides.{IsAcyclic}
use c4harness.Core.Acyclic.Edges.{add_edge-IsAcyclic}

pub record IsWellFormed (g : TaskContractGraph) : Type 0 where
  pub ends : ends_known g ≡ true
  pub keyed : (k : String) (n : TaskNodeContract) → lookup k g.nodes ≡ some n → n.id ≡ k
  pub distinct : Nodup (keys g.nodes)

Nodup-snoc :
    (xs : List String) (x : String) → Nodup xs → contains xs x ≡ false → Nodup (xs ++ x ∷ [])
unfolding contains
Nodup-snoc [] x h k = ground arith
Nodup-snoc (y ∷ xs) x h k =
    ground (arith, Nodup-snoc xs x, contains-append xs (x ∷ []) y, contains_one x y)

module _ {V : Type 0} where
  keys-insert_new :
      (k : String) (v : V) (d : Dict String V)
      → has_key k d ≡ false
      → keys (insert k v d) ≡ keys d ++ k ∷ []
  unfolding keys insert has_key lookup
  keys-insert_new k v [] h = refl
  keys-insert_new k v ((j, w) ∷ d) h = ground (arith, keys-insert_new k v d)

  has_key-insert :
      (k j : String) (v : V) (d : Dict String V)
      → has_key j d ≡ true
      → has_key j (insert k v d) ≡ true
  unfolding has_key
  has_key-insert k j v d h = ground (arith, lookup-insert j k v d)

all_mono :
    {A : Type 0} (p q : A → Bool) (xs : List A)
    → ((x : A) → p x ≡ true → q x ≡ true)
    → all p xs ≡ true
    → all q xs ≡ true
unfolding all
all_mono p q [] f h = refl
all_mono p q (x ∷ xs) f h = ground (arith, f x, all_mono p q xs f)

add_node-new :
    (g : TaskContractGraph) (n : TaskNodeContract)
    → IsWellFormed g
    → has_key n.id g.nodes ≡ false
    → IsWellFormed (record g { nodes = insert n.id n g.nodes })
add_node-new g n wf new = record {
  ends =
      unfold ends_known in
      all_mono _ _ g.edges
        (λ e both.
          ground
            (arith, has_key-insert n.id e.source n g.nodes, has_key-insert n.id e.target n g.nodes))
        (unfold ends_known in wf.ends);
  keyed = λ k m found. ground (arith, lookup-insert k n.id n g.nodes, wf.keyed k m);
  distinct =
      rw (keys-insert_new n.id n g.nodes new)
        (Nodup-snoc (keys g.nodes) n.id wf.distinct (contains-keys g.nodes n.id ∙ new));
}

-- `add_node` raises exactly if the graph has a node with the id of the new one. Otherwise it returns a graph
-- with the edges of before, where the new node is the last and each node of before is still found; and this
-- graph is well formed if the one of before is.
pub add_node_correct :
    (g : TaskContractGraph) (n : TaskNodeContract)
    → IsWellFormed g
    → ((has_key n.id g.nodes ≡ true)
        × (add_node g n ≡ err (value_error ("Duplicate task node id: " <> n.id))))
      ⊎ ((has_key n.id g.nodes ≡ false)
          × ((g' : TaskContractGraph) × (add_node g n ≡ ok g')
              × IsWellFormed g'
              × (g'.edges ≡ g.edges)
              × (keys g'.nodes ≡ keys g.nodes ++ n.id ∷ [])
              × (lookup n.id g'.nodes ≡ some n)
              × ((k : String) (m : TaskNodeContract)
                  → lookup k g.nodes ≡ some m
                  → lookup k g'.nodes ≡ some m)))
unfolding add_node
add_node_correct g n wf = elim (Bool-cases (has_key n.id g.nodes)) [
  | inl duplicate ↦ inl (duplicate, rw (add_node, duplicate) refl)
  | inr new ↦ inr (
    new,
    (
      record g { nodes = insert n.id n g.nodes },
      rw (add_node, new) refl,
      add_node-new g n wf new,
      refl,
      keys-insert_new n.id n g.nodes new,
      ground (arith, lookup-insert n.id n.id n g.nodes, ==_refl n.id),
      λ k m found.
          ground
            (arith, found, new, lookup-insert k n.id n g.nodes, has_key-eq_true k g.nodes found),
    ),
  )
]

-- A graph that `add_edge` returns is well formed and acyclic if the one it was given is well formed.
pub add_edge-IsWellFormed :
    (g g' : TaskContractGraph) (e : GraphEdge)
    → IsWellFormed g
    → add_edge g e ≡ ok g'
    → IsWellFormed g' × IsAcyclic g'
add_edge-IsWellFormed g g' e wf h =
    let (same, known, free) = add_edge-IsAcyclic g g' e wf.ends h in
    (record { ends = known; keyed = rw same wf.keyed; distinct = rw same wf.distinct }, free)
