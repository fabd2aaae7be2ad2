-- ===== src/Scheduler.antt =====
-- c4harness/delegator/scheduler.py. A `GraphScheduler` is a record, and a method that changes it
-- returns the new record or raises. `R` is the type of the results that workers return. A raised
-- `KeyError` names a node id that the graph does not have.
pub mod Batch
pub mod States
pub mod Propagate
pub mod Marks
pub mod Ready
use Prim.Native.String.{◌++◌ as ◌<>◌}
use c4harness.Base.{
  ℕ, zero, suc, ◌+◌, String, Bool, true, false, not, ◌&&◌, ◌||◌, Option, none, some, List, [], ◌∷◌,
  ◌++◌, Dict, keys, values, lookup, insert, has_key, contains, any, all, filter, length, sorted,
  ◌==◌, string_eq, if◌then◌else◌,
}
use c4harness.Core.Errors.{
  Error, Result, ok, err, value_error, key_error, recursion_error, raise_if, for_each, ◌>>=◌, ◌>>◌,
}
use c4harness.Core.Types.{TaskNodeContract, GraphEdge, TaskContractGraph, is_nonempty}
use c4harness.Core.Graph.{is_requires}

pub data NodeState : Type 0 where
  pending running succeeded failed blocked : NodeState

-- `state == NodeState.X`, and `state in (SUCCEEDED, FAILED, BLOCKED)`
abbrev pub is_pending : NodeState → Bool
is_pending pending = true
is_pending _ = false

abbrev pub is_running : NodeState → Bool
is_running running = true
is_running _ = false

abbrev pub is_succeeded : NodeState → Bool
is_succeeded succeeded = true
is_succeeded _ = false

abbrev pub is_failed : NodeState → Bool
is_failed failed = true
is_failed _ = false

abbrev pub is_blocked : NodeState → Bool
is_blocked blocked = true
is_blocked _ = false

abbrev pub is_final : NodeState → Bool
is_final pending = false
is_final running = false
is_final _ = true

abbrev pub state_text : NodeState → String
state_text pending = "pending"
state_text running = "running"
state_text succeeded = "succeeded"
state_text failed = "failed"
state_text blocked = "blocked"

pub record NodeOutcome (R : Type 0) : Type 0 where
  pub node_id : String
  pub state : NodeState
  pub error : Option String
  pub result : Option R

pub record GraphResult (R : Type 0) : Type 0 where
  pub node_outcomes : Dict String (NodeOutcome R)
  pub execution_order : List String

pub record GraphScheduler (R : Type 0) : Type 0 where
  pub graph : TaskContractGraph
  pub outcomes : Dict String (NodeOutcome R)
  pub execution_order : List String
  pub requires_sources : Dict String (List String)

abbrev pub Outcomes : Type 0 → Type 0
Outcomes R = Dict String (NodeOutcome R)

-- `error or None`
abbrev pub error_or_none : String → Option String
error_or_none e = if e == "" then none else some e

module _ {R : Type 0} where
  -- The properties of `GraphResult`.
  unfoldable pub all_succeeded : GraphResult R → Bool
  all_succeeded r =
      is_nonempty r.node_outcomes && all (λ o. is_succeeded o.state) (values r.node_outcomes)

  unfoldable pub has_failures : GraphResult R → Bool
  has_failures r = any (λ o. is_failed o.state) (values r.node_outcomes)

  unfoldable pub outcomes_final : Outcomes R → Bool
  outcomes_final outcomes = all (λ o. is_final o.state) (values outcomes)

  unfoldable pub result_is_terminal : GraphResult R → Bool
  result_is_terminal r = outcomes_final r.node_outcomes

  unfoldable pub deadlock_detected : GraphResult R → Bool
  unfolding all_succeeded has_failures result_is_terminal
  deadlock_detected r =
      if not (is_nonempty r.node_outcomes) || not (result_is_terminal r)
      then false
      else not (all_succeeded r) && not (has_failures r)

  unfoldable pub is_incomplete : GraphResult R → Bool
  unfolding result_is_terminal
  is_incomplete r = result_is_terminal r && any (λ o. is_blocked o.state) (values r.node_outcomes)

  -- `GraphScheduler.__init__`
  unfoldable pub fresh_outcomes : List String → Outcomes R
  fresh_outcomes [] = []
  fresh_outcomes (nid ∷ ids) =
      (nid, record { node_id = nid; state = pending; error = none; result = none })
      ∷ fresh_outcomes ids

-- `raise ValueError(f"Cannot mark …")`
abbrev pub wrong_state : String → String → NodeState → Error
wrong_state nid verb state =
    value_error
      ("Cannot mark " <> nid <> " as " <> verb <> "; current state is " <> state_text state <> ".")

-- The local variables of `_propagate_blocked`.
pub record Front (R : Type 0) : Type 0 where
  pub states : Outcomes R
  pub visited : List String
  pub queue : List String

no_sources : List String → Dict String (List String)
no_sources [] = []
no_sources (nid ∷ ids) = (nid, []) ∷ no_sources ids

add_source : Dict String (List String) → GraphEdge → Dict String (List String)
add_source sources e = elim (lookup e.target sources) [
  | none ↦ sources
  | some known ↦ if is_requires e then insert e.target (known ++ e.source ∷ []) sources else sources
]

add_sources : List GraphEdge → Dict String (List String) → Dict String (List String)
add_sources [] sources = sources
add_sources (e ∷ es) sources = add_sources es (add_source sources e)

module _ {R : Type 0} where
  unfoldable pub new_scheduler : TaskContractGraph → GraphScheduler R
  unfolding fresh_outcomes no_sources add_sources add_source
  new_scheduler g = record {
    graph = g;
    outcomes = fresh_outcomes (keys g.nodes);
    execution_order = [];
    requires_sources = add_sources g.edges (no_sources (keys g.nodes));
  }

  -- `self._outcomes[node_id]`
  abbrev pub outcome_of : Outcomes R → String → Result (NodeOutcome R)
  outcome_of outcomes nid = elim (lookup nid outcomes) [
    | none ↦ err (key_error nid)
    | some o ↦ ok o
  ]

  -- `all(self._outcomes[src].state == SUCCEEDED for src in sources)`, which stops at the first `False`
  unfoldable pub sources_succeeded : Outcomes R → List String → Result Bool
  sources_succeeded outcomes [] = ok true
  sources_succeeded outcomes (src ∷ sources) =
      let rest = sources_succeeded outcomes sources in
      outcome_of outcomes src >>= λ o. if is_succeeded o.state then rest else ok false

  -- `self._requires_sources.get(nid, [])`
  abbrev pub sources_of : GraphScheduler R → String → List String
  sources_of s nid = elim (lookup nid s.requires_sources) [ none ↦ [] | some sources ↦ sources ]

  unfoldable pub is_ready : GraphScheduler R → String → Result Bool
  unfolding sources_succeeded
  is_ready s nid = outcome_of s.outcomes nid >>= λ o.
      if is_pending o.state then sources_succeeded s.outcomes (sources_of s nid) else ok false

  node_of : GraphScheduler R → String → Result TaskNodeContract
  node_of s nid = elim (lookup nid s.graph.nodes) [ none ↦ err (key_error nid) | some n ↦ ok n ]

  unfoldable pub ready_among : GraphScheduler R → List String → Result (List TaskNodeContract)
  unfolding is_ready node_of
  ready_among s [] = ok []
  ready_among s (nid ∷ ids) =
      let rest = ready_among s ids in
      is_ready s nid >>= λ ready.
      if ready then (node_of s nid >>= λ node. rest >>= λ nodes. ok (node ∷ nodes)) else rest

  unfoldable pub ready_nodes : GraphScheduler R → Result (List TaskNodeContract)
  unfolding ready_among
  ready_nodes s = ready_among s (sorted (keys s.outcomes))

  unfoldable pub is_terminal : GraphScheduler R → Bool
  unfolding outcomes_final
  is_terminal s = outcomes_final s.outcomes

  unfoldable pub mark_running : GraphScheduler R → String → Result (GraphScheduler R)
  mark_running s nid = do
    o ← outcome_of s.outcomes nid
    raise_if (not (is_pending o.state)) (wrong_state nid "running" o.state)
    ok (record s {
      outcomes = insert nid (record o { state = running }) s.outcomes;
      execution_order = s.execution_order ++ nid ∷ [];
    })

  unfoldable pub mark_succeeded : GraphScheduler R → String → Option R → Result (GraphScheduler R)
  mark_succeeded s nid result = do
    o ← outcome_of s.outcomes nid
    raise_if (not (is_running o.state)) (wrong_state nid "succeeded" o.state)
    ok (record s {
      outcomes = insert nid (record o { state = succeeded; result = result }) s.outcomes;
    })

  abbrev pub block_pending : NodeOutcome R → NodeOutcome R
  block_pending o = if is_pending o.state then record o { state = blocked } else o

  -- The body of `for edge in self._graph.edges`.
  unfoldable pub visit_edge : String → GraphEdge → Front R → Result (Front R)
  visit_edge current e f =
      if is_requires e && (e.source == current && not (contains f.visited e.target))
      then (outcome_of f.states e.target >>= λ o. ok (record {
        states = insert e.target (block_pending o) f.states;
        visited = e.target ∷ f.visited;
        queue = f.queue ++ e.target ∷ [];
      }))
      else ok f

  -- The `while` loop. Each round takes one id from the queue, and an id enters the queue when the
  -- target of an edge is first seen: two rounds more than there are edges are enough.
  unfoldable pub propagate : ℕ → List GraphEdge → Front R → Result (Outcomes R)
  unfolding visit_edge for_each
  propagate zero edges f = err recursion_error
  propagate (suc fuel) edges f = elim f.queue [
    | [] ↦ ok f.states
    | current ∷ rest ↦
        for_each (visit_edge current) edges (record f { queue = rest }) >>= propagate fuel edges
  ]

  unfoldable pub propagate_blocked : GraphScheduler R → String → Result (GraphScheduler R)
  unfolding propagate
  propagate_blocked s failed_id =
      propagate (suc (suc (length s.graph.edges))) s.graph.edges
        (record { states = s.outcomes; visited = failed_id ∷ []; queue = failed_id ∷ [] })
      >>= λ outcomes. ok (record s { outcomes = outcomes })

  unfoldable pub mark_failed : GraphScheduler R → String → String → Result (GraphScheduler R)
  mark_failed s nid error = do
    o ← outcome_of s.outcomes nid
    raise_if (not (is_running o.state)) (wrong_state nid "failed" o.state)
    propagate_blocked
        (record s {
          outcomes =
              insert nid (record o { state = failed; error = error_or_none error }) s.outcomes;
        })
        nid

  unfoldable pub mark_blocked : GraphScheduler R → String → String → Result (GraphScheduler R)
  mark_blocked s nid error = do
    o ← outcome_of s.outcomes nid
    raise_if (not (is_pending o.state)) (wrong_state nid "blocked" o.state)
    propagate_blocked
        (record s {
          outcomes =
              insert nid (record o { state = blocked; error = error_or_none error }) s.outcomes;
        })
        nid

  unfoldable pub build_result : GraphScheduler R → GraphResult R
  build_result s = record { node_outcomes = s.outcomes; execution_order = s.execution_order }
