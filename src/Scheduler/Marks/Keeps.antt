-- ===== src/Scheduler/Marks/Keeps.antt =====
-- The transitions keep the scheduler's invariants: its shape, and that dependencies are respected.
use c4harness.Base.{
  [], ◌∷◌, ◌++◌, has_key-eq_true, keys-insert_present, insert, refl, Option, String, ◌≡◌, sym, ap,
  ◌∙◌, true, some, List, keys, lookup, contains, ◌==◌, string_eq, arith, inl, inr, if◌then◌else◌,
}
use c4harness.Core.Types.{GraphEdge}
use c4harness.Core.Walks.{one, more}
use c4harness.Scheduler.{
  outcome_of, ok, mark_succeeded, mark_running, NodeState, pending, running, succeeded, failed,
  blocked, NodeOutcome, GraphScheduler,
}
use c4harness.Scheduler.Propagate.Scan.{requires, Downstream}
use c4harness.Scheduler.Propagate.Loop.{Reached}
use c4harness.Scheduler.States.{
  state_at-insert, was_started, is_halted, block_state, state_at, target_state, state_found-block,
  IsScheduler, Respects,
}
use c4harness.Scheduler.Marks.{Settled}

Reached-step :
    (es : List GraphEdge) (nid : String) {u v : String}
    → Reached es nid u
    → requires es u v ≡ true
    → Downstream es nid v
Reached-step es nid (inl same) r = one (rw same at r)
Reached-step es nid (inr w) r = more w r

-- The moves of the two methods that stop a node.
pub data Stops : NodeState → NodeState → Type 0 where
  fails : Stops running failed
  blocks : Stops pending blocked

module _ {R : Type 0} (s s' : GraphScheduler R) (nid : String) (o : NodeOutcome R)
    (p : Settled s s' nid o) where
  pub Settled-IsScheduler : IsScheduler s → IsScheduler s'
  Settled-IsScheduler inv = record {
    same_keys = p.same_keys ∙ inv.same_keys ∙ ap (λ g. keys g.nodes) (sym p.same_graph);
    graph_ok = rw p.same_graph inv.graph_ok;
    sources = λ u v. rw p.same_graph (rw p.same_sources (inv.sources u v));
  }

  pub state_at-Settled :
      (v : String)
      → state_at s'.outcomes v ≡ (
          if v == nid
          then some o.state
          else if contains p.reached v
          then block_state (state_at s.outcomes v)
          else state_at s.outcomes v)
  unfolding state_at
  state_at-Settled v = ground (arith, p.at, p.view v, state_found-block (lookup v s.outcomes))

  module _ (resp : Respects s.graph.edges s.outcomes) (u v : String)
      (r : requires s.graph.edges u v ≡ true) where
    started_after :
        {before after : NodeState}
        → Stops before after
        → state_at s.outcomes nid ≡ some before
        → o.state ≡ after
        → was_started (state_at s'.outcomes v) ≡ true
        → state_at s'.outcomes u ≡ some succeeded
    started_after fails was now h =
        ground (arith, state_at-Settled u, state_at-Settled v, resp.started u v r)
    started_after blocks was now h =
        ground (arith, state_at-Settled u, state_at-Settled v, resp.started u v r)

    reached_after : contains p.reached u ≡ true → contains p.reached v ≡ true
    reached_after h =
        (p.reached_iff v).1 (inr (Reached-step s.graph.edges nid ((p.reached_iff u).0 h) r))

    halted_after :
        IsScheduler s
        → {before after : NodeState} → Stops before after
        → state_at s.outcomes nid ≡ some before
        → o.state ≡ after
        → is_halted (state_at s'.outcomes u) ≡ true
        → state_at s'.outcomes v ≡ some blocked
    halted_after inv fails was now h =
        let (st, known) = target_state s u v inv r in
        ground (
          arith,
          state_at-Settled u,
          state_at-Settled v,
          resp.started u v r,
          resp.halted u v r,
          (p.reached_iff u).1,
          reached_after,
        )
    halted_after inv blocks was now h =
        let (st, known) = target_state s u v inv r in
        ground (
          arith,
          state_at-Settled u,
          state_at-Settled v,
          resp.started u v r,
          resp.halted u v r,
          (p.reached_iff u).1,
          reached_after,
        )

  -- Stopping a node and blocking what is downstream of it respects the dependencies.
  pub Settled-Respects :
      {before after : NodeState}
      → Stops before after
      → IsScheduler s
      → state_at s.outcomes nid ≡ some before
      → o.state ≡ after
      → Respects s.graph.edges s.outcomes
      → Respects s'.graph.edges s'.outcomes
  Settled-Respects stops inv was now resp = rw p.same_graph (record {
    started = λ u v r h. started_after resp u v r stops was now h;
    halted = λ u v r h. halted_after resp u v r inv stops was now h;
  })

module _ {R : Type 0} (s : GraphScheduler R) (nid : String) (o : NodeOutcome R) where
  -- The record after `mark_running`, and after `mark_succeeded`.
  abbrev pub with_running : GraphScheduler R
  with_running = record s {
    outcomes = insert nid (record o { state = running }) s.outcomes;
    execution_order = s.execution_order ++ nid ∷ [];
  }

  abbrev pub with_succeeded : Option R → GraphScheduler R
  with_succeeded result = record s {
    outcomes = insert nid (record o { state = succeeded; result = result }) s.outcomes;
  }

module _ {R : Type 0} (s : GraphScheduler R) (nid : String) (o : NodeOutcome R)
    (found : lookup nid s.outcomes ≡ some o) where
  pub mark_running-eq : o.state ≡ pending → mark_running s nid ≡ ok (with_running s nid o)
  unfolding mark_running
  mark_running-eq state = rw (found, outcome_of) (rw state refl)

  pub mark_succeeded-eq :
      (result : Option R)
      → o.state ≡ running
      → mark_succeeded s nid result ≡ ok (with_succeeded s nid o result)
  unfolding mark_succeeded
  mark_succeeded-eq result state = rw (found, outcome_of) (rw state refl)

  state_here : state_at s.outcomes nid ≡ some o.state
  unfolding state_at
  state_here = rw found refl

  same_keys_after : (o' : NodeOutcome R) → keys (insert nid o' s.outcomes) ≡ keys s.outcomes
  same_keys_after o' = keys-insert_present nid o' s.outcomes (has_key-eq_true nid s.outcomes found)

  pub with_running-IsScheduler : IsScheduler s → IsScheduler (with_running s nid o)
  with_running-IsScheduler inv = record {
    same_keys = same_keys_after (record o { state = running }) ∙ inv.same_keys;
    graph_ok = inv.graph_ok;
    sources = inv.sources;
  }

  pub with_succeeded-IsScheduler :
      (result : Option R) → IsScheduler s → IsScheduler (with_succeeded s nid o result)
  with_succeeded-IsScheduler result inv = record {
    same_keys = same_keys_after (record o { state = succeeded; result = result }) ∙ inv.same_keys;
    graph_ok = inv.graph_ok;
    sources = inv.sources;
  }

  pub state_at-with_running :
      (v : String)
      → state_at (with_running s nid o).outcomes v
        ≡ (if v == nid then some running else state_at s.outcomes v)
  state_at-with_running v = state_at-insert s.outcomes nid v (record o { state = running })

  pub state_at-with_succeeded :
      (result : Option R) (v : String)
      → state_at (with_succeeded s nid o result).outcomes v
        ≡ (if v == nid then some succeeded else state_at s.outcomes v)
  state_at-with_succeeded result v =
      state_at-insert s.outcomes nid v (record o { state = succeeded; result = result })

  -- Starting a pending node whose sources have succeeded respects the dependencies.
  pub with_running-Respects :
      o.state ≡ pending
      → ((u : String)
          → requires s.graph.edges u nid ≡ true
          → state_at s.outcomes u ≡ some succeeded)
      → Respects s.graph.edges s.outcomes
      → Respects s.graph.edges (with_running s nid o).outcomes
  with_running-Respects state ready resp = record {
    started = λ u v r h. ground (
      arith,
      state_at-with_running u,
      state_at-with_running v,
      state_here,
      resp.started u v r,
      ready u,
    );
    halted = λ u v r h. ground (
      arith,
      state_at-with_running u,
      state_at-with_running v,
      state_here,
      resp.halted u v r,
      ready u,
    );
  }

  pub with_succeeded-Respects :
      (result : Option R)
      → o.state ≡ running
      → Respects s.graph.edges s.outcomes
      → Respects s.graph.edges (with_succeeded s nid o result).outcomes
  with_succeeded-Respects result state resp = record {
    started = λ u v r h. ground (
      arith,
      state_at-with_succeeded result u,
      state_at-with_succeeded result v,
      state_here,
      resp.started u v r,
    );
    halted = λ u v r h. ground (
      arith,
      state_at-with_succeeded result u,
      state_at-with_succeeded result v,
      state_here,
      resp.started u v r,
      resp.halted u v r,
    );
  }
