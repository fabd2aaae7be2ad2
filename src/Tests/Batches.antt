-- ===== src/Tests/Batches.antt =====
-- Tests of the scheduler's steps, of the choice of a batch, and of the overlap of paths.
use c4harness.Base.{
  insert, keys, ◌≤◌, ◌<◌, String, ◌≡◌, ◌≢◌, ◌⊎◌, ◌↔◌, refl, true, none, some, List, string_eq,
  contains, lookup, length, any, arith, All,
}
use c4harness.Core.Errors.{ok}
use c4harness.Core.Types.{TaskNodeContract}
use c4harness.Tests.Fixtures.{chain, three_nodes, same_path}
use c4harness.Tests.Graphs.{chain_scheduler}
use c4harness.Paths.{parts, paths_overlap}
use c4harness.Paths.Overlap.{IsPrefix, paths_overlap_iff}
use c4harness.Scheduler.{
  GraphScheduler, NodeOutcome, new_scheduler, fresh_outcomes, mark_failed, running, pending, failed,
}
use c4harness.Scheduler.Propagate.Scan.{Downstream, block_found}
use c4harness.Scheduler.States.{IsScheduler}
use c4harness.Scheduler.Marks.{mark_failed_blocks}
use c4harness.Scheduler.Marks.Keeps.{with_running, with_running-IsScheduler}
use c4harness.Scheduler.Batch.{nodes_overlap, select_parallel_batch}
use c4harness.Scheduler.Batch.Greedy.{ids, IsSublist, IsApart, select_parallel_batch_correct}

abbrev waiting_a : NodeOutcome String
waiting_a = record { node_id = "a"; state = pending; error = none; result = none }

abbrev running_a : NodeOutcome String
running_a = record waiting_a { state = running }

abbrev a_runs : GraphScheduler String
a_runs = with_running (new_scheduler chain) "a" waiting_a

a_waits : lookup "a" (new_scheduler {R = String} chain).outcomes ≡ some waiting_a
unfolding new_scheduler fresh_outcomes lookup keys string_eq
a_waits = refl

a_is_running : lookup "a" a_runs.outcomes ≡ some running_a
unfolding new_scheduler fresh_outcomes lookup keys insert string_eq
a_is_running = refl

a_runs-IsScheduler : IsScheduler a_runs
a_runs-IsScheduler =
    with_running-IsScheduler (new_scheduler chain) "a" waiting_a a_waits chain_scheduler

mark_failed_blocks_example :
    (s' : GraphScheduler String) × (mark_failed a_runs "a" "no" ≡ ok s')
    × (lookup "a" s'.outcomes ≡ some (record running_a { state = failed; error = some "no" }))
    × ((v : String)
        → v ≢ "a"
        → Downstream a_runs.graph.edges "a" v
        → lookup v s'.outcomes ≡ block_found (lookup v a_runs.outcomes))
    × ((v : String)
        → v ≢ "a"
        → ¬ Downstream a_runs.graph.edges "a" v
        → lookup v s'.outcomes ≡ lookup v a_runs.outcomes)
    × (s'.execution_order ≡ a_runs.execution_order)
unfolding string_eq
mark_failed_blocks_example =
    mark_failed_blocks a_runs a_runs-IsScheduler "a" "no" running_a a_is_running refl

select_parallel_batch_correct_example :
    (batch : List TaskNodeContract) × (select_parallel_batch same_path three_nodes 2 none
      ≡ ok batch)
    × IsSublist batch three_nodes
    × (length batch ≤ 2)
    × ((1 ≤ length three_nodes) → 1 ≤ length batch)
    × IsApart same_path none 2 batch
    × ((length batch < 2)
        → All
            (λ n.
              (contains (ids batch) n.id ≡ true)
              ⊎ (any (nodes_overlap same_path none n) batch ≡ true))
            three_nodes)
select_parallel_batch_correct_example =
    select_parallel_batch_correct same_path none 2 three_nodes (omega arith)

paths_overlap_iff_example :
    (paths_overlap "src" "src/a.py" ≡ true)
    ↔ (IsPrefix (parts "src") (parts "src/a.py") ⊎ IsPrefix (parts "src/a.py") (parts "src"))
paths_overlap_iff_example = paths_overlap_iff "src" "src/a.py"
