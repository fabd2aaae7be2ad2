-- ===== src/Scheduler/Marks.antt =====
-- `mark_failed` and `mark_blocked`: what they change, and that the invariants hold after them.
pub mod Keeps
use c4harness.Base.{
  suc, String, ◌≡◌, ◌≢◌, refl, sym, ap, ◌∙◌, Bool, true, false, not, ◌&&◌, Option, none, some, List,
  [], ◌∷◌, keys, lookup, insert, has_key, contains, contains-keys, lookup-insert,
  keys-insert_present, has_key-eq_true, length, all, ◌==◌, Bool-cases, string_eq, arith, inl, inr,
  ◌⊎◌, ◌↔◌, if◌then◌else◌,
}
use c4harness.Core.Errors.{Result, ok, err, raise_if, ◌>>=◌}
use c4harness.Core.Types.{GraphEdge}
use c4harness.Core.Acyclic.Outgoing.{ends_known, ends-contains}
use c4harness.Scheduler.{
  NodeState, pending, running, failed, blocked, is_pending, NodeOutcome, Outcomes, GraphScheduler,
  outcome_of, propagate, propagate_blocked, mark_failed, mark_blocked, error_or_none,
}
use c4harness.Scheduler.Propagate.Scan.{Downstream, block_found}
use c4harness.Scheduler.Propagate.Loop.{Reached, Propagated, propagate-Propagated}
use c4harness.Scheduler.States.{IsScheduler}

-- The record `s'` is `s` with `o` at `nid` and with the pending nodes downstream of `nid` blocked.
pub record Settled {R : Type 0} (s s' : GraphScheduler R) (nid : String) (o : NodeOutcome R)
    : Type 0 where
  pub same_graph : s'.graph ≡ s.graph
  pub same_order : s'.execution_order ≡ s.execution_order
  pub same_sources : s'.requires_sources ≡ s.requires_sources
  pub same_keys : keys s'.outcomes ≡ keys s.outcomes
  pub at : lookup nid s'.outcomes ≡ some o
  pub reached : List String
  pub reached_iff : (v : String) → (contains reached v ≡ true) ↔ Reached s.graph.edges nid v
  pub view :
      (v : String)
      → v ≢ nid
      → lookup v s'.outcomes
        ≡ (if contains reached v then block_found (lookup v s.outcomes) else lookup v s.outcomes)

all-targets :
    (es : List GraphEdge) (nodes : List String)
    → all (λ e. contains nodes e.source && contains nodes e.target) es ≡ true
    → all (λ e. contains nodes e.target) es ≡ true
unfolding all
all-targets [] nodes h = refl
all-targets (e ∷ es) nodes h = ground (arith, all-targets es nodes)

module _ {R : Type 0} (s : GraphScheduler R) (inv : IsScheduler s) where
  targets_known : all (λ e. contains (keys s.outcomes) e.target) s.graph.edges ≡ true
  targets_known = rw inv.same_keys (
      all-targets s.graph.edges (keys s.graph.nodes)
        (ends-contains s.graph.edges s.graph.nodes (unfold ends_known in inv.graph_ok.ends)))

  settle :
      (nid : String) (o' o : NodeOutcome R)
      → lookup nid s.outcomes ≡ some o'
      → is_pending o.state ≡ false
      → (s' : GraphScheduler R) × (propagate_blocked
            (record s { outcomes = insert nid o s.outcomes })
            nid
          ≡ ok s')
        × Settled s s' nid o
  unfolding propagate_blocked
  settle nid o' o found settled =
      let same = keys-insert_present nid o s.outcomes (has_key-eq_true nid s.outcomes found) in
      let here : lookup nid (insert nid o s.outcomes) ≡ some o =
        ground (arith, lookup-insert nid nid o s.outcomes) in
      let (states, ends, p) =
        propagate-Propagated s.graph.edges nid (insert nid o s.outcomes) o here settled
          (rw same targets_known) in
      (
        record s { outcomes = states },
        rw ends refl,
        record {
          same_graph = refl;
          same_order = refl;
          same_sources = refl;
          same_keys = p.same_keys ∙ same;
          at = ground (arith, p.view nid, here);
          reached = p.reached;
          reached_iff = p.reached_iff;
          view = λ v other. ground (arith, p.view v, lookup-insert v nid o s.outcomes);
        },
      )

  -- `mark_failed` of a running node.
  pub mark_failed-Settled :
      (nid error : String) (o : NodeOutcome R)
      → lookup nid s.outcomes ≡ some o
      → o.state ≡ running
      → (s' : GraphScheduler R) × (mark_failed s nid error ≡ ok s')
        × Settled s s' nid (record o { state = failed; error = error_or_none error })
  unfolding mark_failed
  mark_failed-Settled nid error o found state =
      let (s', ends, p) =
        settle nid o (record o { state = failed; error = error_or_none error }) found refl in
      (s', rw (found, outcome_of) (rw state ends), p)

  -- `mark_blocked` of a pending node.
  pub mark_blocked-Settled :
      (nid error : String) (o : NodeOutcome R)
      → lookup nid s.outcomes ≡ some o
      → o.state ≡ pending
      → (s' : GraphScheduler R) × (mark_blocked s nid error ≡ ok s')
        × Settled s s' nid (record o { state = blocked; error = error_or_none error })
  unfolding mark_blocked
  mark_blocked-Settled nid error o found state =
      let (s', ends, p) =
        settle nid o (record o { state = blocked; error = error_or_none error }) found refl in
      (s', rw (found, outcome_of) (rw state ends), p)

  -- For a scheduler that satisfies the invariant `IsScheduler`, `mark_failed` on a running node returns. The node has failed with its error, every pending node
  -- downstream of it along `requires` edges is blocked, every other node is as it was, and so is the
  -- execution order.
  pub mark_failed_blocks :
      (nid error : String) (o : NodeOutcome R)
      → lookup nid s.outcomes ≡ some o
      → o.state ≡ running
      → (s' : GraphScheduler R) × (mark_failed s nid error ≡ ok s')
        × (lookup nid s'.outcomes ≡ some (record o { state = failed; error = error_or_none error }))
        × ((v : String)
            → v ≢ nid
            → Downstream s.graph.edges nid v
            → lookup v s'.outcomes ≡ block_found (lookup v s.outcomes))
        × ((v : String)
            → v ≢ nid
            → ¬ Downstream s.graph.edges nid v
            → lookup v s'.outcomes ≡ lookup v s.outcomes)
        × (s'.execution_order ≡ s.execution_order)
  mark_failed_blocks nid error o found state =
      let (s', ends, p) = mark_failed-Settled nid error o found state in
      (
        s',
        ends,
        p.at,
        (λ v other down. p.view v other ∙ rw ((p.reached_iff v).1 (inr down)) refl),
        (λ v other free. p.view v other ∙ rw (unreached s' p v other free) refl),
        p.same_order,
      )
    where
      unreached :
          (s' : GraphScheduler R)
          (p : Settled s s' nid (record o { state = failed; error = error_or_none error }))
          (v : String)
          → v ≢ nid
          → ¬ Downstream s.graph.edges nid v
          → contains p.reached v ≡ false
      unreached s' p v other free = elim (Bool-cases (contains p.reached v)) [
        | inr absent ↦ absent
        | inl here ↦ elim ((p.reached_iff v).0 here) [
          | inl same ↦ absurd (other same)
          | inr down ↦ absurd (free down)
        ]
      ]
