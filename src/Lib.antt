-- ===== src/Lib.antt =====
-- C4Harness: a development about the parts of c4harness that decide what is run, in which order,
-- and whether the result is accepted.
--
-- A task is compiled into a graph of node contracts (c4harness/core/graph.py). `GraphScheduler`
-- (c4harness/delegator/scheduler.py) keeps the state of each node, and `RunGraph`
-- (c4harness/application/run_graph.py) asks it for ready nodes, calls a runner for each, and
-- reports the outcomes back. Whether a task is split at all is decided in
-- c4harness/decompose/operators.py and c4harness/decompose/atomicity.py. A worker is chosen by its
-- capabilities (c4harness/decompose/capabilities.py), a node that was not accepted is tried again
-- or given up (c4harness/decompose/replan.py), patches reserve the paths that they write
-- (c4harness/integrator/conflicts.py) and are applied to a shared workspace as transactions
-- (c4harness/integrator/patches.py), the results of the phases of a node are combined
-- (c4harness/verifier/phases.py), and the root verifier (c4harness/verifier/root.py) accepts or
-- rejects the whole. What an execution says of its worker is recorded for later assignments
-- (c4harness/history).
--
-- The files:
-- - Base: shared names; Python's `in`, `dict`, `sorted`, `any` and `all`.
-- - Core: Errors (what may be raised), Types and Contracts (the dataclasses), Graph
--   (`TaskContractGraph`, `DecompositionPlan`), Acyclic (the depth-first search), WellFormed,
--   Plans.
-- - Paths: `PurePosixPath` on texts, and the overlap of two paths.
-- - Scheduler: `GraphScheduler` and `GraphResult`; States, Propagate, Marks and Ready are about
--   its methods, Batch about `select_parallel_batch`.
-- - RunGraph: `RunGraph.execute`; Steps, Rounds and Stuck lead to Correct.
-- - Integrator.Workspace and Integrator.Patches: paths under the repository and file states
--   (c4harness/integrator/workspace.py), and the checks of `PatchApplier`, with what it applies in
--   Transactions; Steps is about the first loop of `apply`, Trees about the second, Atomic about
--   the whole, Correct, Expected, Consistent and Rollback about what comes of it.
-- - Integrator.Diffs: `parse_unified_diff`, with its loops over the files in Files, and
--   `generate_unified_diff` in Generate; Fuel and Total are about the end of the first, Script, Render,
--   RoundTrip and Whole about patches made of edit scripts.
-- - Integrator.Conflicts: `detect_conflicts`; Integrator.Sessions: `GraphIntegrationSession`
--   (c4harness/integrator/service.py), where a proposal is checked for conflicts, parsed, and
--   applied as a transaction that a commit or a rollback ends.
-- - Decompose, Replan, Capabilities, Reservations, Verifier.Phases, Verifier.Root: the files named
--   above.
-- - History: the outcomes of executions (c4harness/history/contracts.py); Attribution and Profiles
--   are the files of these names.
-- - Tests: runs on concrete data.
--
-- A class with state is a record, and a method that changes it is a function to the new record. A
-- function that may raise returns a `Result`. Where the source mutates a shared `NodeOutcome`, the
-- model writes it back to the dictionary, and reads it there again. A Python set is a list without
-- duplicates. A directory tree is a dictionary from relative paths to texts; what the file system
-- does, its faults included, and SHA-256 are in the record `Os`, and what the standard library
-- does with texts (line ends, the regular expression of hunk headers) in the record `Texts`, both
-- parameters. The runner, the order in which the futures of a batch complete, and `Path.resolve`
-- are parameters.
--
-- Fuel stands for the loops that are not structural: the recursion of `visit`, one unit more than
-- there are nodes; the queue of `_propagate_blocked`, two more than there are edges; the loop of
-- `execute`, one more than there are nodes; and the two outer loops of `parse_unified_diff`, one
-- more than there are lines. That it is enough is part of the results.
--
-- What is taken for granted: the recursion of `visit` does not reach Python's recursion limit, a
-- runner raises no exception outside `Exception`, and the handler of `PatchApplier.apply`, where it
-- has to move the old tree back after a first try failed, does not fail as well.
--
-- Not modelled: serialization (`to_dict`), the running of checks, processes, files, SQLite, the
-- command line and the dashboard; of c4harness/application/run_graph.py the class
-- `GraphExecutionService`; of c4harness/integrator `create_integration_snapshot`, which copies
-- directories. The threads of a session are not modelled: its methods are steps, as its lock makes
-- them. In records, the fields that no modelled function reads are left out where the file says
-- so.
pub mod Base
pub mod Capabilities
pub mod Core
pub mod Decompose
pub mod History
pub mod Integrator
pub mod Paths
pub mod Replan
pub mod Reservations
pub mod RunGraph
pub mod Scheduler
pub mod Tests
pub mod Verifier
