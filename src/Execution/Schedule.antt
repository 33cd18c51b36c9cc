-- ===== src/Execution/Schedule.antt =====
-- zhongshu-core/src/agent/execution_graph.rs: `run_ready`, which runs what is ready until nothing is.
-- The handler is a function that passes its state on; what the state is after an error is left out.
use zhongshu.Prelude.{
  String, ℕ, zero, suc, ◌+◌, Bool, true, false, List, [], ◌∷◌, ◌++◌, Option, none, some, ok, err,
  if◌then◌else◌, length,
}
use zhongshu.Execution.Method.{Method, ◌>>=◌, ◌>>◌, reads}
use zhongshu.Execution.Graph.{node, ready_node_ids}
use zhongshu.Execution.Lifecycle.{
  validate_artifacts, start_node, complete_node, fail_node, cancel_node,
}
use zhongshu.Execution.Settle.{settle_unreachable}
use zhongshu.Execution.Types.{
  ExecutionNode, NodeExecutionOutcome, ExecutionScheduleReport, missing_node,
}

-- The variables of a round, and the state of the handler.
pub record Round {ℓ} (S : Type ℓ) : Type ℓ where
  pub world : S
  pub report : ExecutionScheduleReport
  pub progressed : Bool
  pub deferred : List String

abbrev pub empty_report : ExecutionScheduleReport
empty_report = record {
  executed_nodes = [];
  skipped_nodes = [];
  deferred_nodes = [];
  stalled = false;
}

abbrev pub add_skipped : List String → ExecutionScheduleReport → ExecutionScheduleReport
add_skipped skipped_nodes report = record report {
  skipped_nodes = report.skipped_nodes ++ skipped_nodes;
}

abbrev pub returns {ℓ} : {A : Type ℓ} → A → Method A
returns a g = (ok a, g)

module _ {ℓ} {S : Type ℓ} (handler : S → ExecutionNode → NodeExecutionOutcome × S) where
  abbrev pub new_round : S → ExecutionScheduleReport → Round S
  new_round world report = record {
    world = world;
    report = report;
    progressed = false;
    deferred = [];
  }

  abbrev pub executed : String → Round S → Round S
  executed node_id r = record r {
    report = record r.report { executed_nodes = r.report.executed_nodes ++ node_id ∷ [] };
    progressed = true;
  }

  -- The `match` on the handler's answer.
  unfoldable pub run_outcome : String → NodeExecutionOutcome → Round S → Method (Round S)
  run_outcome node_id NodeExecutionOutcome.deferred r =
      returns (record r { deferred = r.deferred ++ node_id ∷ [] })
  run_outcome node_id (NodeExecutionOutcome.succeeded artifacts) r = do
    reads (λ g. validate_artifacts g node_id artifacts)
    start_node node_id
    complete_node node_id artifacts
    returns (executed node_id r)
  run_outcome node_id (NodeExecutionOutcome.failed reason) r = do
    start_node node_id
    fail_node node_id reason
    returns (executed node_id r)
  run_outcome node_id (NodeExecutionOutcome.cancelled reason) r = do
    cancel_node node_id reason
    returns (executed node_id r)

  unfoldable pub run_node : String → Round S → Method (Round S)
  run_node node_id r g = elim (node g node_id) [
    | none ↦ (err (missing_node node_id), g)
    | some n ↦
        run_outcome node_id (handler r.world n).0 (record r { world = (handler r.world n).1 }) g
  ]

  unfoldable pub run_nodes : List String → Round S → Method (Round S)
  run_nodes [] r g = (ok r, g)
  run_nodes (node_id ∷ node_ids) r g = (run_node node_id r >>= run_nodes node_ids) g

  -- The end of a round: the next one, or the answer that nothing moves.
  unfoldable pub end_round :
      (S → ExecutionScheduleReport → Method (Option (ExecutionScheduleReport × S)))
      → Round S
      → Method (Option (ExecutionScheduleReport × S))
  end_round again r =
      if r.progressed
      then again r.world r.report
      else returns (some (record r.report { deferred_nodes = r.deferred; stalled = true }, r.world))

  unfoldable pub run_round :
      (S → ExecutionScheduleReport → Method (Option (ExecutionScheduleReport × S)))
      → S
      → ExecutionScheduleReport
      → List String
      → Method (Option (ExecutionScheduleReport × S))
  run_round again world report [] = returns (some (report, world))
  run_round again world report (node_id ∷ node_ids) =
      run_nodes (node_id ∷ node_ids) (new_round world report) >>= end_round again

  -- The loop of `run_ready`; `none` when the fuel runs out.
  unfoldable pub run_loop :
      ℕ → S → ExecutionScheduleReport → Method (Option (ExecutionScheduleReport × S))
  run_loop zero world report g = (ok none, g)
  run_loop (suc fuel) world report g =
      (settle_unreachable >>= λ skipped_nodes h.
      run_round (run_loop fuel) world (add_skipped skipped_nodes report) (ready_node_ids h) h)
        g

  -- Each round but the last takes a pending node out of that state.
  unfoldable pub run_ready : S → Method (Option (ExecutionScheduleReport × S))
  run_ready world g = run_loop (length g.nodes + 1) world empty_report g
