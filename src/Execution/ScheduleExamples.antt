-- ===== src/Execution/ScheduleExamples.antt =====
-- A run of two nodes, on which the theorems about `run_ready` are put to use.
use zhongshu.Prelude.{ℕ, zero, suc, refl}
use zhongshu.Execution.Graph.{empty_graph, add_node, add_edge}
use zhongshu.Execution.Steps.{here, next, adds_node, adds_edge}
use zhongshu.Execution.Safety.{Steps-HasIds}
use zhongshu.Execution.Readiness.{HasIds}
use zhongshu.Execution.Schedule.{run_ready}
use zhongshu.Execution.Rounds.{Schedules, run_ready-Schedules}
use zhongshu.Execution.Traced.{Ended, run_ready-Follows}
use zhongshu.Execution.Types.{
  ExecutionGraph, ExecutionNode, NodeExecutionOutcome, pending_node, work, decide, finally,
}

abbrev search_first : ExecutionGraph
search_first =
    (add_edge (record { from = "a"; to = "b"; kind = finally })
      (add_node (pending_node "b" decide "decide")
        (add_node (pending_node "a" work "search") (empty_graph "task")).1).1).1

search_first-HasIds : HasIds search_first
search_first-HasIds =
    Steps-HasIds
      (next
        (next (next here (adds_node (pending_node "a" work "search") refl))
          (adds_node (pending_node "b" decide "decide") refl))
        (adds_edge (record { from = "a"; to = "b"; kind = finally })))
      (record { sorted = tt; keyed = tt })

-- The first call fails, the others defer.
abbrev fails_once : ℕ → ExecutionNode → NodeExecutionOutcome × ℕ
fails_once zero n = (NodeExecutionOutcome.failed "no match", 1)
fails_once (suc calls) n = (NodeExecutionOutcome.deferred, suc (suc calls))

run_ready-Schedules_example : Schedules search_first (run_ready fails_once 0 search_first)
run_ready-Schedules_example = run_ready-Schedules fails_once 0 search_first search_first-HasIds

run_ready-Follows_example :
    Ended fails_once 0 search_first
      (run_ready fails_once 0 search_first).0
      (run_ready fails_once 0 search_first).1
run_ready-Follows_example = run_ready-Follows fails_once 0 search_first search_first-HasIds
