-- ===== src/Tests/Graphs.antt =====
-- Tests of the graph, of the scheduler and of a run.
use mathlib.Core.Bool.{false≢true}
use c4harness.Scheduler.Batch.{select_parallel_batch, select_loop, nodes_overlap}
use c4harness.Base.{
  false, values, ==_iff, All, IsSorted, ◌≤◌, String, ◌≡◌, ◌≢◌, ◌⊎◌, ◌↔◌, ◌++◌, refl, true, Option,
  none, some, List, [], ◌∷◌, string_eq, contains, keys, lookup, insert, has_key, any, all, arith,
  map, discard, sorted, insert_sorted, str_le, Nodup,
}
use c4harness.Core.Errors.{value_error, Result, ok, err, for_each}
use c4harness.Core.Types.{TaskContractGraph, TaskNodeContract}
use c4harness.Core.Graph.{
  add_node, add_edge, validate_acyclic, search_all, outgoing_of, no_targets, append_target, visit,
  cycle_error,
}
use c4harness.Core.WellFormed.{IsWellFormed, add_edge-IsWellFormed, add_node_correct}
use c4harness.Core.Acyclic.Outgoing.{ends_known}
use c4harness.Core.Acyclic.Decides.{IsAcyclic, GraphWalk, validate_acyclic_decides}
use c4harness.Core.Acyclic.Edges.{add_edge_correct}
use c4harness.Tests.Fixtures.{
  node, no_edges, one_edge, chain, requires_edge, b_fails, as_submitted, as_submitted-Perm,
  same_path, empty_graph, only_a,
}
use c4harness.RunGraph.{
  run_graph, run_loop, round, run_batch, start_node, finish_node, report, completion,
}
use c4harness.RunGraph.Steps.{IsOrdered}
use c4harness.RunGraph.Correct.{run_graph_terminates, run_graph_starts_in_order, run_graph_blocked}
use c4harness.Scheduler.{
  build_result, visit_edge, propagate, propagate_blocked, mark_succeeded, sources_succeeded,
  is_ready, ready_among, outcomes_final, is_terminal, fresh_outcomes, NodeState, GraphResult,
  result_is_terminal, new_scheduler, ready_nodes, mark_failed, mark_running, succeeded, failed,
  blocked, NodeOutcome,
}
use c4harness.Scheduler.States.{state_at, IsScheduler, Respects, new_scheduler-IsScheduler}
use c4harness.Scheduler.Propagate.Scan.{requires, Downstream}
use c4harness.Scheduler.Ready.{IsReady, ready_nodes_correct}

no_edges-IsWellFormed : IsWellFormed no_edges
unfolding ends_known all contains has_key lookup keys string_eq
no_edges-IsWellFormed = record {
  ends = refl;
  keyed = λ k n h. ground arith;
  distinct = (refl, (refl, (refl, tt)));
}

first_edge : add_edge no_edges (requires_edge "a" "b") ≡ ok one_edge
unfolding add_edge validate_acyclic search_all outgoing_of no_targets append_target for_each visit
    contains discard lookup insert keys has_key string_eq
first_edge = refl

second_edge : add_edge one_edge (requires_edge "b" "c") ≡ ok chain
unfolding add_edge validate_acyclic search_all outgoing_of no_targets append_target for_each visit
    contains discard lookup insert keys has_key string_eq
second_edge = refl

one_edge_good : IsWellFormed one_edge × IsAcyclic one_edge
one_edge_good =
    add_edge-IsWellFormed no_edges one_edge (requires_edge "a" "b") no_edges-IsWellFormed first_edge

chain_good : IsWellFormed chain × IsAcyclic chain
chain_good =
    add_edge-IsWellFormed one_edge chain (requires_edge "b" "c") one_edge_good.0 second_edge

add_edge-IsWellFormed_example : IsWellFormed chain × IsAcyclic chain
add_edge-IsWellFormed_example =
    add_edge-IsWellFormed one_edge chain (requires_edge "b" "c") one_edge_good.0 second_edge

empty-IsWellFormed : IsWellFormed empty_graph
unfolding ends_known all lookup keys
empty-IsWellFormed = record { ends = refl; keyed = λ k n h. cc; distinct = tt }

first_node : add_node empty_graph (node "a" "src/a.py") ≡ ok only_a
unfolding add_node has_key lookup insert
first_node = refl

add_node_correct_example :
    ((has_key "a" empty_graph.nodes ≡ true)
      × (add_node empty_graph (node "a" "src/a.py")
          ≡ err (value_error "Duplicate task node id: a")))
    ⊎ ((has_key "a" empty_graph.nodes ≡ false)
        × ((g' : TaskContractGraph) × (add_node empty_graph (node "a" "src/a.py") ≡ ok g')
            × IsWellFormed g'
            × (g'.edges ≡ [])
            × (keys g'.nodes ≡ keys empty_graph.nodes ++ "a" ∷ [])
            × (lookup "a" g'.nodes ≡ some (node "a" "src/a.py"))
            × ((k : String) (m : TaskNodeContract)
                → lookup k empty_graph.nodes ≡ some m
                → lookup k g'.nodes ≡ some m)))
add_node_correct_example = add_node_correct empty_graph (node "a" "src/a.py") empty-IsWellFormed

validate_acyclic_decides_example :
    (validate_acyclic chain ≡ ok tt) × IsAcyclic chain
    ⊎ (validate_acyclic chain ≡ err cycle_error) × (u : String) × GraphWalk chain u u
validate_acyclic_decides_example = validate_acyclic_decides chain chain_good.0.ends

b_known : has_key "b" one_edge.nodes ≡ true
unfolding has_key lookup string_eq
b_known = refl

c_known : has_key "c" one_edge.nodes ≡ true
unfolding has_key lookup string_eq
c_known = refl

b≢c : ◌≢◌ {A = String} "b" "c"
unfolding string_eq
b≢c h = false≢true ((==_iff "b" "c").1 h)

add_edge_correct_example :
    (add_edge one_edge (requires_edge "b" "c")
        ≡ ok (record one_edge { edges = one_edge.edges ++ requires_edge "b" "c" ∷ [] }))
      × IsAcyclic (record one_edge { edges = one_edge.edges ++ requires_edge "b" "c" ∷ [] })
      × (¬ GraphWalk one_edge "c" "b")
    ⊎ (add_edge one_edge (requires_edge "b" "c") ≡ err cycle_error) × GraphWalk one_edge "c" "b"
add_edge_correct_example =
    add_edge_correct one_edge (requires_edge "b" "c") one_edge_good.0.ends one_edge_good.1 b_known
      c_known b≢c

abbrev run_of_chain : Result (GraphResult String)
run_of_chain = run_graph b_fails as_submitted same_path 2 none true chain

two_at_least_one : 1 ≤ 2
two_at_least_one = omega arith

run_graph_terminates_example :
    (result : GraphResult String) × (run_of_chain ≡ ok result)
    × (keys result.node_outcomes ≡ keys chain.nodes)
    × (result_is_terminal result ≡ true)
run_graph_terminates_example =
    run_graph_terminates b_fails as_submitted as_submitted-Perm same_path 2 two_at_least_one none
      true chain chain_good.1 chain_good.0

abbrev outcome : String → NodeState → Option String → Option String → String × NodeOutcome String
outcome name state error result =
    (name, record { node_id = name; state = state; error = error; result = result })

abbrev chain_result : GraphResult String
chain_result = record {
  node_outcomes =
      outcome "a" succeeded none (some "done")
      ∷ outcome "b" failed (some "RuntimeError: no") none
      ∷ outcome "c" blocked none none
      ∷ [];
  execution_order = "a" ∷ "b" ∷ [];
}

chain_runs : run_graph b_fails as_submitted same_path 2 none true chain ≡ ok chain_result
unfolding run_graph run_loop round run_batch start_node finish_node report completion
    select_parallel_batch select_loop nodes_overlap any new_scheduler fresh_outcomes is_terminal
    outcomes_final ready_nodes ready_among is_ready sources_succeeded mark_running mark_succeeded
    mark_failed propagate_blocked propagate visit_edge build_result for_each all contains lookup
    insert keys values sorted insert_sorted str_le string_eq
chain_runs = refl

run_graph_starts_in_order_example :
    Nodup chain_result.execution_order
    × IsOrdered chain.edges [] chain_result.execution_order
    × ((v : String)
        → (contains chain_result.execution_order v ≡ true) ↔ (
            (state_at chain_result.node_outcomes v ≡ some succeeded)
            ⊎ (state_at chain_result.node_outcomes v ≡ some failed)))
    × ((u v : String)
        → requires chain.edges u v ≡ true
        → contains chain_result.execution_order v ≡ true
        → state_at chain_result.node_outcomes u ≡ some succeeded)
run_graph_starts_in_order_example =
    run_graph_starts_in_order b_fails as_submitted as_submitted-Perm same_path 2 two_at_least_one
      none true chain chain_good.1 chain_good.0 chain_result chain_runs

run_graph_blocked_example : (state_at chain_result.node_outcomes "c" ≡ some blocked) ↔ (
    (u : String) × (state_at chain_result.node_outcomes u ≡ some failed)
    × Downstream chain.edges u "c")
run_graph_blocked_example =
    run_graph_blocked b_fails as_submitted as_submitted-Perm same_path 2 two_at_least_one none true
      chain chain_good.1 chain_good.0 chain_result chain_runs "c"

new_scheduler-IsScheduler_example :
    IsScheduler (new_scheduler {R = String} chain)
    × Respects chain.edges (new_scheduler {R = String} chain).outcomes
new_scheduler-IsScheduler_example = new_scheduler-IsScheduler String chain chain_good.0

pub chain_scheduler : IsScheduler (new_scheduler {R = String} chain)
chain_scheduler = (new_scheduler-IsScheduler String chain chain_good.0).0

ready_nodes_correct_example :
    (nodes : List TaskNodeContract) × (ready_nodes (new_scheduler {R = String} chain) ≡ ok nodes)
    × ((nid : String)
        → (contains (map (λ n. n.id) nodes) nid ≡ true)
          ↔ IsReady (new_scheduler {R = String} chain) chain_scheduler nid)
    × IsSorted (map (λ n. n.id) nodes)
    × Nodup (map (λ n. n.id) nodes)
    × All (λ n. lookup n.id chain.nodes ≡ some n) nodes
unfolding new_scheduler
ready_nodes_correct_example = ready_nodes_correct (new_scheduler {R = String} chain) chain_scheduler
