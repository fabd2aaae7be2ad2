-- ===== src/Scheduler/States.antt =====
-- The states of the nodes as a function of the id, and the scheduler's invariant.
use c4harness.Base.{
  String, ◌≡◌, refl, sym, ◌∙◌, Bool, true, false, ◌&&◌, ◌||◌, Option, none, some, List, [], ◌∷◌,
  ◌++◌, keys, lookup, insert, has_key, contains, contains-keys, lookup-insert, lookup-has_key,
  contains-append, contains_one, contains_self, keys-insert_present, has_key-eq_true, all, any,
  ◌==◌, string_eq, arith, inl, inr, Dict, Option-cases, Bool-cases, if◌then◌else◌,
}
use c4harness.Core.Types.{GraphEdge, TaskContractGraph}
use c4harness.Core.Graph.{is_requires}
use c4harness.Core.WellFormed.{IsWellFormed}
use c4harness.Core.Acyclic.Outgoing.{linked, linked-target, ends_known, ends-contains}
use c4harness.Scheduler.{
  NodeState, pending, running, succeeded, failed, blocked, NodeOutcome, Outcomes, GraphScheduler,
  new_scheduler, fresh_outcomes, no_sources, add_source, add_sources, sources_of,
}
use c4harness.Scheduler.Propagate.Scan.{requires, block_found}

-- A node that has been started, and one that will never succeed.
abbrev pub was_started : Option NodeState → Bool
was_started (some running) = true
was_started (some succeeded) = true
was_started (some failed) = true
was_started _ = false

abbrev pub is_halted : Option NodeState → Bool
is_halted (some failed) = true
is_halted (some blocked) = true
is_halted _ = false

abbrev pub block_state : Option NodeState → Option NodeState
block_state (some pending) = some blocked
block_state other = other

module _ {R : Type 0} where
  abbrev pub state_found : Option (NodeOutcome R) → Option NodeState
  state_found none = none
  state_found (some o) = some o.state

  -- The state of a node, if the scheduler has it.
  unfoldable pub state_at : Outcomes R → String → Option NodeState
  state_at outcomes v = state_found (lookup v outcomes)

  pub state_at-lookup :
      (outcomes : Outcomes R) (v : String) → state_at outcomes v ≡ state_found (lookup v outcomes)
  unfolding state_at
  state_at-lookup outcomes v = refl

  pub state_at-insert :
      (outcomes : Outcomes R) (k v : String) (o : NodeOutcome R)
      → state_at (insert k o outcomes) v ≡ (if v == k then some o.state else state_at outcomes v)
  unfolding state_at
  state_at-insert outcomes k v o = ground (arith, lookup-insert v k o outcomes)

  pub state_found-block :
      (o : Option (NodeOutcome R)) → state_found (block_found o) ≡ block_state (state_found o)
  state_found-block none = refl
  state_found-block (some o) = at o.state refl
    where
      at :
          (st : NodeState)
          → o.state ≡ st
          → state_found (block_found (some o)) ≡ block_state (some o.state)
      at pending e = ground arith
      at running e = ground arith
      at succeeded e = ground arith
      at failed e = ground arith
      at blocked e = ground arith

  -- What every scheduler that the class makes has.
  pub record IsScheduler (s : GraphScheduler R) : Type 0 where
    pub same_keys : keys s.outcomes ≡ keys s.graph.nodes
    pub graph_ok : IsWellFormed s.graph
    pub sources : (u v : String) → contains (sources_of s v) u ≡ requires s.graph.edges u v

  -- Every started node has all that it requires succeeded, and what requires a failed or blocked node
  -- is blocked.
  pub record Respects (edges : List GraphEdge) (outcomes : Outcomes R) : Type 0 where
    pub started :
        (u v : String)
        → requires edges u v ≡ true
        → was_started (state_at outcomes v) ≡ true
        → state_at outcomes u ≡ some succeeded
    pub halted :
        (u v : String)
        → requires edges u v ≡ true
        → is_halted (state_at outcomes u) ≡ true
        → state_at outcomes v ≡ some blocked

module _ (R : Type 0) where
  keys-fresh_outcomes : (ids : List String) → keys (fresh_outcomes {R = R} ids) ≡ ids
  unfolding keys fresh_outcomes
  keys-fresh_outcomes [] = refl
  keys-fresh_outcomes (x ∷ ids) = rw (keys-fresh_outcomes ids)

  pub state_at-fresh_outcomes :
      (ids : List String) (v : String)
      → state_at (fresh_outcomes {R = R} ids) v ≡ (if contains ids v then some pending else none)
  unfolding state_at fresh_outcomes lookup contains
  state_at-fresh_outcomes [] v = refl
  state_at-fresh_outcomes (x ∷ ids) v = ground (arith, state_at-fresh_outcomes ids v)

abbrev listed : Dict String (List String) → String → List String
listed d v = elim (lookup v d) [ none ↦ [] | some sources ↦ sources ]

listed-no_sources :
    (ids : List String) (u v : String) → contains (listed (no_sources ids) v) u ≡ false
unfolding no_sources lookup contains
listed-no_sources [] u v = refl
listed-no_sources (x ∷ ids) u v = ground (arith, listed-no_sources ids u v)

keys-no_sources : (ids : List String) → keys (no_sources ids) ≡ ids
unfolding keys no_sources
keys-no_sources [] = refl
keys-no_sources (x ∷ ids) = rw (keys-no_sources ids)

keys-add_source : (d : Dict String (List String)) (e : GraphEdge) → keys (add_source d e) ≡ keys d
unfolding add_source
keys-add_source d e = elim (Option-cases (lookup e.target d)) [
  | inl absent ↦ rw (absent, add_source) refl
  | inr (known, found) ↦ elim (Bool-cases (is_requires e)) [
    | inl yes_it_is ↦
        rw (found, add_source)
          (rw yes_it_is (keys-insert_present e.target _ d (has_key-eq_true e.target d found)))
    | inr other ↦ rw (found, add_source) (rw other refl)
  ]
]

listed-add_source :
    (d : Dict String (List String)) (e : GraphEdge) (u v : String)
    → has_key e.target d ≡ true
    → contains (listed (add_source d e) v) u
      ≡ (contains (listed d v) u || (is_requires e && (e.source == u && e.target == v)))
unfolding add_source
listed-add_source d e u v known =
    let (ts, found) = lookup-has_key e.target d known in
    ground (
      arith,
      found,
      lookup-insert v e.target (ts ++ e.source ∷ []) d,
      contains-append ts (e.source ∷ []) u,
      contains_one e.source u,
      contains_self e.source [],
    )

add_sources-meaning :
    (es : List GraphEdge) (d : Dict String (List String)) (u v : String)
    → all (λ e. contains (keys d) e.source && contains (keys d) e.target) es ≡ true
    → contains (listed (add_sources es d) v) u ≡ (contains (listed d v) u || requires es u v)
unfolding add_sources requires any all
add_sources-meaning [] d u v h = ground arith
add_sources-meaning (e ∷ es) d u v h = ground (
  arith,
  add_sources-meaning es (add_source d e) u v (rw keys-add_source (ground arith)),
  listed-add_source d e u v (sym (contains-keys d e.target) ∙ ground arith),
)

-- A new scheduler of a well-formed graph has the ids of the graph, gives for each node exactly the sources of
-- its `requires` edges, and respects the dependencies.
pub new_scheduler-IsScheduler :
    (R : Type 0) (g : TaskContractGraph)
    → IsWellFormed g
    → IsScheduler (new_scheduler {R = R} g) × Respects g.edges (new_scheduler {R = R} g).outcomes
unfolding new_scheduler
new_scheduler-IsScheduler R g h = (
  record {
    same_keys = keys-fresh_outcomes R (keys g.nodes);
    graph_ok = h;
    sources = λ u v.
        add_sources-meaning g.edges (no_sources (keys g.nodes)) u v
          (rw keys-no_sources (ends-contains g.edges g.nodes (unfold ends_known in h.ends)))
        ∙ rw (listed-no_sources (keys g.nodes) u v) refl;
  },
  record {
    started = λ u v r started. ground (arith, state_at-fresh_outcomes R (keys g.nodes) v);
    halted = λ u v r halted. ground (arith, state_at-fresh_outcomes R (keys g.nodes) u);
  },
)

pub requires-linked :
    (es : List GraphEdge) (u v : String) → requires es u v ≡ true → linked es u v ≡ true
unfolding requires linked any
requires-linked [] u v h = ground arith
requires-linked (e ∷ es) u v h = ground (arith, requires-linked es u v)

-- The target of a `requires` edge has a state.
pub target_state :
    {R : Type 0} (s : GraphScheduler R) (u v : String)
    → IsScheduler s
    → requires s.graph.edges u v ≡ true
    → (st : NodeState) × (state_at s.outcomes v ≡ some st)
unfolding state_at
target_state s u v inv r =
    let known =
      linked-target s.graph.edges (keys s.graph.nodes) u v
        (ends-contains s.graph.edges s.graph.nodes (unfold ends_known in inv.graph_ok.ends))
        (requires-linked s.graph.edges u v r) in
    let (o, found) =
      lookup-has_key v s.outcomes (sym (contains-keys s.outcomes v) ∙ rw inv.same_keys known) in
    (o.state, rw found refl)

linked-source :
    (es : List GraphEdge) (nodes : List String) (u v : String)
    → all (λ e. contains nodes e.source && contains nodes e.target) es ≡ true
    → linked es u v ≡ true
    → contains nodes u ≡ true
unfolding all linked any
linked-source [] nodes u v h m = ground arith
linked-source (e ∷ es) nodes u v h m = ground (arith, linked-source es nodes u v)

-- The source of a `requires` edge has an outcome.
pub source_known :
    {R : Type 0} (s : GraphScheduler R) (u v : String)
    → IsScheduler s
    → requires s.graph.edges u v ≡ true
    → has_key u s.outcomes ≡ true
source_known s u v inv r =
    sym (contains-keys s.outcomes u)
    ∙ rw inv.same_keys (
        linked-source s.graph.edges (keys s.graph.nodes) u v
          (ends-contains s.graph.edges s.graph.nodes (unfold ends_known in inv.graph_ok.ends))
          (requires-linked s.graph.edges u v r))

-- A node with a state is one of the scheduler's.
pub state_known :
    {R : Type 0} (outcomes : Outcomes R) (v : String) {st : NodeState}
    → state_at outcomes v ≡ some st
    → has_key v outcomes ≡ true
unfolding state_at has_key
state_known outcomes v h = ground arith
