-- ===== src/Core/Acyclic/Outgoing.antt =====
-- The adjacency dictionary that `validate_acyclic` builds holds exactly the edges of the graph.
use c4harness.Base.{
  String, ◌≡◌, refl, sym, ◌∙◌, Bool, true, false, ◌&&◌, ◌||◌, Option, none, some, List, [], ◌∷◌,
  ◌++◌, Dict, keys, lookup, insert, has_key, contains, contains-append, contains_one, contains_self,
  lookup-insert, lookup-has_key, keys-insert_present, has_key-eq_true, contains-keys, all, any,
  ◌==◌, string_eq, arith, ◌↔◌,
}
use c4harness.Core.Errors.{ok, for_each}
use c4harness.Core.Types.{GraphEdge, TaskContractGraph}
use c4harness.Core.Graph.{no_targets, append_target, outgoing_of}
use c4harness.Core.Acyclic.Search.{Edge, IsClosed}

-- Some edge of the list leads from `u` to `v`.
unfoldable pub linked : List GraphEdge → String → String → Bool
linked es u v = any (λ e. u == e.source && v == e.target) es

-- Both ends of every edge are nodes: what `add_edge` makes sure of.
unfoldable pub ends_known : TaskContractGraph → Bool
ends_known g = all (λ e. has_key e.source g.nodes && has_key e.target g.nodes) g.edges

points : Dict String (List String) → String → String → Bool
points d u v = elim (lookup u d) [ none ↦ false | some ts ↦ contains ts v ]

Edge-points : (d : Dict String (List String)) (u v : String) → Edge d u v → points d u v ≡ true
unfolding points
Edge-points d u v e = rw (e.listed, points) e.target

points-Edge : (d : Dict String (List String)) (u v : String) → points d u v ≡ true → Edge d u v
unfolding points
points-Edge d u v h = at (lookup u d) refl h
  where
    at :
        (o : Option (List String))
        → lookup u d ≡ o
        → elim o [ none ↦ false | some ts ↦ contains ts v ] ≡ true
        → Edge d u v
    at none e p = cc
    at (some ts) e p = record { targets = ts; listed = e; target = p }

points-no_targets : (ids : List String) (u v : String) → points (no_targets ids) u v ≡ false
unfolding points no_targets lookup contains
points-no_targets [] u v = refl
points-no_targets (x ∷ ids) u v = ground (arith, points-no_targets ids u v)

keys-no_targets : (ids : List String) → keys (no_targets ids) ≡ ids
unfolding keys no_targets
keys-no_targets [] = refl
keys-no_targets (x ∷ ids) = rw (keys-no_targets ids)

points-insert :
    (d : Dict String (List String)) (s t : String) (ts : List String) (u v : String)
    → lookup s d ≡ some ts
    → points (insert s (ts ++ t ∷ []) d) u v ≡ (points d u v || (u == s && v == t))
unfolding points
points-insert d s t ts u v h = ground (
  arith,
  lookup-insert u s (ts ++ t ∷ []) d,
  contains-append ts (t ∷ []) v,
  contains_one t v,
  contains_self t [],
)

-- What the loop over the edges makes of the dictionary `d`.
record Collected (es : List GraphEdge) (d d' : Dict String (List String)) : Type 0 where
  built : for_each append_target es d ≡ ok d'
  same_keys : keys d' ≡ keys d
  meaning : (u v : String) → points d' u v ≡ (points d u v || linked es u v)

Bool-or_assoc : (a b c : Bool) → ((a || b) || c) ≡ (a || (b || c))
Bool-or_assoc a b c = ground arith

Collected-cons :
    (e : GraphEdge) (es : List GraphEdge) (d d' : Dict String (List String)) (ts : List String)
    → lookup e.source d ≡ some ts
    → Collected es (insert e.source (ts ++ e.target ∷ []) d) d'
    → Collected (e ∷ es) d d'
unfolding for_each append_target linked any
Collected-cons e es d d' ts h c = record {
  built = rw (h, for_each, append_target) c.built;
  same_keys = c.same_keys ∙ keys-insert_present e.source _ d (has_key-eq_true e.source d h);
  meaning = λ u v.
      c.meaning u v
      ∙ rw (points-insert d e.source e.target ts u v h) (Bool-or_assoc (points d u v) _ _);
}

collect :
    (es : List GraphEdge) (d : Dict String (List String))
    → all (λ e. contains (keys d) e.source) es ≡ true
    → (d' : Dict String (List String)) × Collected es d d'
unfolding all
collect [] d h = (
  d,
  record {
    built = unfold for_each in refl;
    same_keys = refl;
    meaning = λ u v. unfold linked any in ground arith;
  },
)
collect (e ∷ es) d h =
    let (ts, at) = lookup-has_key e.source d (ground (arith, contains-keys d e.source)) in
    let d1 = insert e.source (ts ++ e.target ∷ []) d in
    let same =
      keys-insert_present e.source (ts ++ e.target ∷ []) d (has_key-eq_true e.source d at) in
    let (d', rest) = collect es d1 (rw same (ground arith)) in
    (d', Collected-cons e es d d' ts at rest)

all-sources :
    (es : List GraphEdge) (nodes : List String)
    → all (λ e. contains nodes e.source && contains nodes e.target) es ≡ true
    → all (λ e. contains nodes e.source) es ≡ true
unfolding all
all-sources [] nodes h = refl
all-sources (e ∷ es) nodes h = ground (arith, all-sources es nodes)

pub linked-target :
    (es : List GraphEdge) (nodes : List String) (u v : String)
    → all (λ e. contains nodes e.source && contains nodes e.target) es ≡ true
    → linked es u v ≡ true
    → contains nodes v ≡ true
unfolding all linked any
linked-target [] nodes u v h m = ground arith
linked-target (e ∷ es) nodes u v h m = ground (arith, linked-target es nodes u v)

pub ends-contains :
    {V : Type 0} (es : List GraphEdge) (nodes : Dict String V)
    → all (λ e. has_key e.source nodes && has_key e.target nodes) es ≡ true
    → all (λ e. contains (keys nodes) e.source && contains (keys nodes) e.target) es ≡ true
unfolding all
ends-contains [] nodes h = refl
ends-contains (e ∷ es) nodes h =
    ground
      (arith, ends-contains es nodes, contains-keys nodes e.source, contains-keys nodes e.target)

-- The dictionary of a graph whose edges join nodes.
pub record Adjacency (g : TaskContractGraph) : Type 0 where
  pub outgoing : Dict String (List String)
  pub built : outgoing_of g ≡ ok outgoing
  pub same_keys : keys outgoing ≡ keys g.nodes
  pub edges_iff : (u v : String) → Edge outgoing u v ↔ (linked g.edges u v ≡ true)
  pub closed : IsClosed outgoing

pub outgoing_of-Adjacency : (g : TaskContractGraph) → ends_known g ≡ true → Adjacency g
unfolding outgoing_of ends_known
outgoing_of-Adjacency g h =
    let known = ends-contains g.edges g.nodes h in
    let empty = no_targets (keys g.nodes) in
    let (d, c) =
      collect g.edges empty (rw keys-no_targets (all-sources g.edges (keys g.nodes) known)) in
    let means : (u v : String) → points d u v ≡ linked g.edges u v =
      λ u v. c.meaning u v ∙ rw (points-no_targets (keys g.nodes) u v) refl in
    let same : keys d ≡ keys g.nodes = c.same_keys ∙ keys-no_targets (keys g.nodes) in
    record {
      outgoing = d;
      built = c.built;
      same_keys = same;
      edges_iff = λ u v.
          (λ e. sym (means u v) ∙ Edge-points d u v e, λ l. points-Edge d u v (means u v ∙ l));
      closed = λ u v e.
          sym (contains-keys d v)
          ∙ rw same (
              linked-target g.edges (keys g.nodes) u v known
                (sym (means u v) ∙ Edge-points d u v e));
    }
