-- ===== src/RunGraph/Correct.antt =====
-- A run of a graph without cycles: it ends, each node is started at most once and after what it requires,
-- and the nodes that are not started are those downstream of a failure.
use mathlib.Core.List.{Permᴰ}
use c4harness.Base.{
  all, values, ℕ, zero, suc, ◌≤◌, ◌<◌, String, ◌≡◌, ◌≢◌, refl, sym, ap, ◌∙◌, subst, Bool, true,
  false, Option, some, List, [], ◌∷◌, keys, lookup, contains, contains-cons, contains-keys, missing,
  missing-le, missing_mono, missing-cons-lt, length, Nodup, string_eq, arith, inl, inr, ◌⊎◌, ◌↔◌,
  Bool-cases,
}
use c4harness.Core.Errors.{ok}
use c4harness.Core.Types.{TaskContractGraph, TaskNodeContract}
use c4harness.Core.Walks.{one, more}
use c4harness.Core.WellFormed.{IsWellFormed}
use c4harness.Core.Acyclic.Decides.{IsAcyclic}
use c4harness.Scheduler.{
  outcomes_final, running, succeeded, failed, blocked, Outcomes, GraphScheduler, GraphResult,
  is_terminal, result_is_terminal, new_scheduler, build_result, ready_nodes,
}
use c4harness.Scheduler.Propagate.Scan.{requires, Downstream}
use c4harness.Scheduler.Propagate.Loop.{not_in_nil}
use c4harness.Scheduler.States.{
  state_at, state_known, state_at-fresh_outcomes, new_scheduler-IsScheduler,
}
use c4harness.Scheduler.Ready.{IsReady, ready_nodes_correct}
use c4harness.Scheduler.Batch.Greedy.{ids}
use c4harness.RunGraph.{RunnerCall, run_loop, run_graph}
use c4harness.RunGraph.Steps.{Run, Running, IsOrdered}
use c4harness.RunGraph.Rounds.{Round, round-Round}
use c4harness.RunGraph.Stuck.{stuck-terminal}

module _ {R : Type 0} (runner : TaskNodeContract → RunnerCall R)
    (complete : List TaskNodeContract → List TaskNodeContract)
    (completes : (batch : List TaskNodeContract) → Permᴰ (complete batch) batch)
    (resolve : String → String) (max_parallel : ℕ) (limit : 1 ≤ max_parallel) (repo : Option String)
    (execute : Bool) (g : TaskContractGraph) where
  -- Where the loop ends.
  record Ended (s' : GraphScheduler R) : Type 0 where
    run : Run g s'
    over : is_terminal s' ≡ true

  -- How many nodes have not been started.
  abbrev left : GraphScheduler R → ℕ
  left s = missing (keys g.nodes) s.execution_order

  left-Round :
      (s s' : GraphScheduler R)
      → Run g s
      → Round g runner execute complete completes s s'
      → left s' < left s
  left-Round s s' run r = omega (
    arith,
    missing-cons-lt (keys g.nodes) s.execution_order r.started
        (subst (λ k. contains k r.started ≡ true)
          (run.inv.same_keys ∙ ap (λ h. keys h.nodes) run.graph)
          (contains-keys s.outcomes r.started ∙ state_known s.outcomes r.started r.was_fresh))
        (run.order_iff r.started ∙ rw r.was_fresh refl),
    missing_mono (keys g.nodes) (r.started ∷ s.execution_order) s'.execution_order (λ m h.
        r.run.order_iff m ∙ elim ((contains-cons r.started s.execution_order m).0 h) [
          | inl here ↦ rw here r.is_started
          | inr there ↦ r.later.still_started m (sym (run.order_iff m) ∙ there)
        ]),
  )

  -- What the loop leaves is final.
  final_of :
      (outcomes : Outcomes R) (v : String)
      → outcomes_final outcomes ≡ true
      → state_at outcomes v ≢ some running
  unfolding outcomes_final all values state_at lookup
  final_of [] v h k = ground arith
  final_of ((j, o) ∷ rest) v h k = ground (arith, final_of rest v)

  no_running :
      (s : GraphScheduler R) → Ended s → (v : String) → state_at s.outcomes v ≢ some running
  unfolding is_terminal
  no_running s e v = final_of s.outcomes v e.over

  Downstream-blocked :
      (s : GraphScheduler R) (e : Ended s) {u v : String}
      → state_at s.outcomes u ≡ some failed
      → Downstream g.edges u v
      → state_at s.outcomes v ≡ some blocked
  Downstream-blocked s e {u} {v} bad (one r) =
      e.run.resp.halted u v (rw e.run.graph r) (rw bad refl)
  Downstream-blocked s e {v = v} bad (more {v = m} w r) =
      e.run.resp.halted m v (rw e.run.graph r) (rw (Downstream-blocked s e bad w) refl)

  module _ (acyclic : IsAcyclic g) where
    abbrev Loops : ℕ → Type 0
    Loops fuel =
        (s : GraphScheduler R)
        → Run g s
        → Running s []
        → left s < fuel
        → (s' : GraphScheduler R) × (run_loop runner complete resolve max_parallel repo execute fuel
              s
            ≡ ok s')
          × Ended s'

    round-Ended :
        (fuel : ℕ)
        → Loops fuel
        → (s : GraphScheduler R) (run : Run g s) → Running s []
        → left s < suc fuel
        → is_terminal s ≡ false
        → (nodes : List TaskNodeContract) → ready_nodes s ≡ ok nodes
        → ((v : String) → (contains (ids nodes) v ≡ true) ↔ IsReady s run.inv v)
        → Nodup (ids nodes)
        → (s' : GraphScheduler R) × (run_loop runner complete resolve max_parallel repo execute
              (suc fuel)
              s
            ≡ ok s')
          × Ended s'
    unfolding run_loop
    round-Ended fuel ih s run idle fits unfinished [] listed ready apart =
        let over : is_terminal s ≡ true =
          stuck-terminal g s run idle (subst (λ h. IsAcyclic h) (sym run.graph) acyclic)
            (λ v r. not_in_nil v ((ready v).1 r)) in
        absurd (ground arith)
    round-Ended fuel ih s run idle fits unfinished (n ∷ others) listed ready apart =
        let (s1, ends1, r) =
          round-Round g runner execute complete completes resolve max_parallel repo n others s run
            idle limit apart (λ v m. (ready v).0 m) in
        let (s2, ends2, e) = ih s1 r.run r.idle (omega (arith, left-Round s s1 run r)) in
        (s2, rw (run_loop, unfinished) (rw listed (rw ends1 ends2)), e)

    loop-Ended : (fuel : ℕ) → Loops fuel
    unfolding run_loop
    loop-Ended zero s run idle fits = absurd (omega arith)
    loop-Ended (suc fuel) s run idle fits =
        let (nodes, listed, ready, _, apart, _) = ready_nodes_correct s run.inv in
        elim (Bool-cases (is_terminal s)) [
          | inl over ↦ (s, rw (run_loop, over) refl, record { run = run; over = over })
          | inr unfinished ↦
              round-Ended fuel (loop-Ended fuel) s run idle fits unfinished nodes listed ready apart
        ]

    new-Run :
        IsWellFormed g → Run {R = R} g (new_scheduler g) × Running (new_scheduler {R = R} g) []
    unfolding new_scheduler
    new-Run wf =
        let (inv, resp) = new_scheduler-IsScheduler R g wf in
        let now = state_at-fresh_outcomes R (keys g.nodes) in
        (
          record {
            graph = refl;
            inv = inv;
            resp = resp;
            order_iff = λ v. unfold contains in ground (arith, now v);
            distinct = tt;
            ordered = tt;
            blame = λ v h. absurd (ground (arith, now v));
          },
          λ v. unfold contains in ground (arith, now v),
        )

    run_graph-Ended :
        IsWellFormed g
        → (s : GraphScheduler R) × (run_graph runner complete resolve max_parallel repo execute g
            ≡ ok (build_result s))
          × Ended s
    unfolding run_graph
    run_graph-Ended wf =
        let (run, idle) = new-Run wf in
        let (s, ends, e) =
          loop-Ended (suc (length (keys g.nodes))) (new_scheduler g) run idle
            (omega (arith, missing-le (keys g.nodes) (new_scheduler {R = R} g).execution_order)) in
        (s, rw ends (ground arith), e)

    -- For a well-formed graph without cycles and a limit of at least one, `execute` returns, whatever the
    -- runner does and in whatever order the futures of a batch complete. Its result has the nodes of the
    -- graph and is terminal.
    pub run_graph_terminates :
        IsWellFormed g
        → (result : GraphResult R) × (run_graph runner complete resolve max_parallel repo execute g
            ≡ ok result)
          × (keys result.node_outcomes ≡ keys g.nodes)
          × (result_is_terminal result ≡ true)
    unfolding result_is_terminal is_terminal build_result
    run_graph_terminates wf =
        let (s, ends, e) = run_graph-Ended wf in
        (build_result s, ends, e.run.inv.same_keys ∙ ap (λ h. keys h.nodes) e.run.graph, e.over)

    -- In a result of `execute` on a well-formed graph without cycles, with a limit of at least one and each
    -- future of a batch completing once, no node is twice in the execution
    -- order, a node is in it exactly if it succeeded or failed, each stands after the nodes that it
    -- requires, and those have all succeeded.
    pub run_graph_starts_in_order :
        IsWellFormed g
        → (result : GraphResult R)
        → run_graph runner complete resolve max_parallel repo execute g ≡ ok result
        → Nodup result.execution_order
          × IsOrdered g.edges [] result.execution_order
          × ((v : String)
              → (contains result.execution_order v ≡ true) ↔ (
                  (state_at result.node_outcomes v ≡ some succeeded)
                  ⊎ (state_at result.node_outcomes v ≡ some failed)))
          × ((u v : String)
              → requires g.edges u v ≡ true
              → contains result.execution_order v ≡ true
              → state_at result.node_outcomes u ≡ some succeeded)
    unfolding build_result
    run_graph_starts_in_order wf result returns =
        let (s, ends, e) = run_graph-Ended wf in
        let same : result ≡ build_result s = ground arith in
        rw same (
          e.run.distinct,
          subst (λ h. IsOrdered h.edges [] s.execution_order) e.run.graph e.run.ordered,
          (λ v. started_iff s e v),
          λ u v r h. e.run.resp.started u v (rw e.run.graph r) (sym (e.run.order_iff v) ∙ h),
        )
      where
        started_iff :
            (s : GraphScheduler R) (e : Ended s) (v : String)
            → (contains s.execution_order v ≡ true)
              ↔ ((state_at s.outcomes v ≡ some succeeded) ⊎ (state_at s.outcomes v ≡ some failed))
        started_iff s e v = ground (arith, e.run.order_iff v, no_running s e v)

    -- In a result of `execute` on a well-formed graph without cycles, with a limit of at least one and each
    -- future of a batch completing once, a node is blocked exactly if a chain
    -- of `requires` edges leads to it from a node that failed.
    pub run_graph_blocked :
        IsWellFormed g
        → (result : GraphResult R)
        → run_graph runner complete resolve max_parallel repo execute g ≡ ok result
        → (v : String)
        → (state_at result.node_outcomes v ≡ some blocked) ↔ (
            (u : String) × (state_at result.node_outcomes u ≡ some failed) × Downstream g.edges u v)
    unfolding build_result
    run_graph_blocked wf result returns v =
        let (s, ends, e) = run_graph-Ended wf in
        let same : result ≡ build_result s = ground arith in
        rw same (
          (λ h.
              let b = e.run.blame v h in
              (
                b.culprit,
                b.has_failed,
                subst (λ h. Downstream h.edges b.culprit v) e.run.graph b.path,
              )),
          λ (u, bad, path). Downstream-blocked s e bad path,
        )
