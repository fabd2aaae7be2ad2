-- ===== src/RunGraph.antt =====
-- `RunGraph` of c4harness/application/run_graph.py. The runner is a parameter: it is called at most
-- once for a node, so it is a function of the node. The order in which `as_completed` yields the
-- futures of a batch is the parameter `complete`.
pub mod Steps
pub mod Rounds
pub mod Stuck
pub mod Correct
use c4harness.Base.{
  ℕ, zero, suc, String, Bool, true, false, not, Option, none, some, List, [], ◌∷◌, keys, length,
  ltb, if◌then◌else◌,
}
use c4harness.Core.Errors.{
  Result, ok, err, value_error, recursion_error, raise_if, for_each, ◌>>=◌, ◌>>◌,
}
use c4harness.Core.Types.{TaskNodeContract, TaskContractGraph}
use c4harness.Scheduler.{
  GraphScheduler, GraphResult, new_scheduler, outcome_of, is_pending, ready_nodes, is_terminal,
  mark_running, mark_succeeded, mark_failed, mark_blocked, build_result,
}
use c4harness.Scheduler.Batch.{select_parallel_batch}

-- Without the fields `verification` and `evidence`, which `RunGraph` does not read.
pub record NodeResult (R : Type 0) : Type 0 where
  pub success : Bool
  pub error : String
  pub result : Option R

-- What a call of the runner does: it returns, or it raises an `Exception` and this is its text. What stands
-- outside `Exception` (an interrupt) is not caught by the source, and ends the program.
pub data RunnerCall (R : Type 0) : Type 0 where
  returned : NodeResult R → RunnerCall R
  raised : String → RunnerCall R

-- The runner of a `RunGraph` that is given none.
unfoldable pub noop_runner : TaskNodeContract → RunnerCall String
noop_runner node = returned (record { success = true; error = ""; result = some "dry-run" })

module _ {R : Type 0} where
  -- How a finished call is reported to the scheduler.
  unfoldable pub report : String → RunnerCall R → GraphScheduler R → Result (GraphScheduler R)
  report nid (raised text) s = mark_failed s nid text
  report nid (returned r) s =
      if r.success then mark_succeeded s nid r.result else mark_failed s nid r.error

  -- The body of `for nid, outcome in scheduler.outcomes.items()`.
  unfoldable pub block_if_pending : String → GraphScheduler R → Result (GraphScheduler R)
  block_if_pending nid s = outcome_of s.outcomes nid >>= λ o.
      if is_pending o.state
      then mark_blocked s nid "No ready node remained before graph completion."
      else ok s

  unfoldable pub block_stuck : GraphScheduler R → Result (GraphScheduler R)
  unfolding block_if_pending for_each
  block_stuck s = for_each block_if_pending (keys s.outcomes) s

  unfoldable pub start_node : TaskNodeContract → GraphScheduler R → Result (GraphScheduler R)
  start_node node s = mark_running s node.id

-- The order in which the nodes of a batch are reported.
unfoldable pub completion :
    (List TaskNodeContract → List TaskNodeContract)
    → Bool
    → List TaskNodeContract
    → List TaskNodeContract
completion complete execute [] = []
completion complete execute (node ∷ []) = node ∷ []
completion complete execute (a ∷ b ∷ rest) =
    if execute then complete (a ∷ b ∷ rest) else a ∷ b ∷ rest

module _ {R : Type 0} (runner : TaskNodeContract → RunnerCall R) (execute : Bool) where
  unfoldable pub finish_node : TaskNodeContract → GraphScheduler R → Result (GraphScheduler R)
  unfolding report
  finish_node node s =
      if execute then report node.id (runner node) s else mark_succeeded s node.id none

  -- The `else` branch for `max_parallel > 1`.
  unfoldable pub run_batch :
      (List TaskNodeContract → List TaskNodeContract)
      → List TaskNodeContract
      → GraphScheduler R
      → Result (GraphScheduler R)
  unfolding start_node finish_node completion for_each
  run_batch complete batch s = do
    started ← for_each start_node batch s
    for_each finish_node (completion complete execute batch) started

module _ {R : Type 0} (runner : TaskNodeContract → RunnerCall R)
    (complete : List TaskNodeContract → List TaskNodeContract) (resolve : String → String)
    (max_parallel : ℕ) (repo : Option String) (execute : Bool) where
  -- One round of the `while` loop, where a node is ready.
  unfoldable pub round :
      TaskNodeContract → List TaskNodeContract → GraphScheduler R → Result (GraphScheduler R)
  unfolding run_batch
  round node others s =
      if ltb 1 max_parallel
      then (select_parallel_batch resolve (node ∷ others) max_parallel repo >>= λ batch.
          run_batch runner execute complete batch s)
      else (start_node node s >>= finish_node runner execute node)

  -- The `while` loop. A round starts a node, and no node is started twice: one round more than there are
  -- nodes is enough.
  unfoldable pub run_loop : ℕ → GraphScheduler R → Result (GraphScheduler R)
  unfolding round block_stuck
  run_loop zero s = err recursion_error
  run_loop (suc fuel) s = elim (is_terminal s) [
    | true ↦ ok s
    | false ↦ ready_nodes s >>= λ ready. elim ready [
      | [] ↦ block_stuck s
      | node ∷ others ↦ round node others s >>= run_loop fuel
    ]
  ]

  -- `RunGraph(graph, runner, max_parallel, repo).execute(execute=execute)`
  unfoldable pub run_graph : TaskContractGraph → Result (GraphResult R)
  unfolding run_loop
  run_graph graph = do
    raise_if (ltb max_parallel 1) (value_error "max_parallel must be at least 1")
    scheduler ← run_loop (suc (length (keys graph.nodes))) (new_scheduler graph)
    ok (build_result scheduler)
