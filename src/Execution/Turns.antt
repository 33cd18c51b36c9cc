-- ===== src/Execution/Turns.antt =====
-- What the turn of one ready node in `run_ready` does.
use zhongshu.Prelude.{
  String, true, List, [], ◌∷◌, ◌++◌, none, some, Result, ok, err, Result-cases, inl, inr, ◌≡◌, refl,
  sym, ap, subst, ◌∙◌, arith,
}
use zhongshu.OrderedMap.{lookup}
use zhongshu.Execution.Method.{Method, ◌>>◌, reads, changes, bind_ok, bind_err}
use zhongshu.Execution.Graph.{node}
use zhongshu.Execution.Lifecycle.{
  moved, transition, set_state, is_step, is_cancellable, validate_artifacts, add_artifacts,
  start_node, complete_node, fail_node, cancel_node,
}
use zhongshu.Execution.Readiness.{HasIds, IsReady}
use zhongshu.Execution.Settling.{is_pending}
use zhongshu.Execution.Schedule.{Round, returns, executed, run_outcome, run_node}
use zhongshu.Execution.Types.{
  ExecutionGraph, ExecutionGraphError, ExecutionNode, ExecutionArtifact, NodeExecutionOutcome,
  ExecutionScheduleReport, pending, running, succeeded, failed, cancelled,
}
use zhongshu.Execution.Runs.{
  start_ready, Ran, ended_graph, Ran-ended, ends, Ran-cancelled, Ran-add_artifacts,
}
use zhongshu.Execution.Artifacts.{
  IsArtifactFault, validate_artifacts-faults, validate_artifacts-same,
}

abbrev pub add_executed : String → ExecutionScheduleReport → ExecutionScheduleReport
add_executed node_id report = record report {
  executed_nodes = report.executed_nodes ++ node_id ∷ [];
}

-- A turn that fails leaves the graph as it was.
pub data Turn {ℓ} {S : Type ℓ} (g : ExecutionGraph) (node_id : String) (r : Round S)
    : Result ExecutionGraphError (Round S) × ExecutionGraph → Type ℓ where
  faults : (e : ExecutionGraphError) → IsArtifactFault e → Turn g node_id r (err e, g)
  defers :
      (s : Round S)
      → s.progressed ≡ r.progressed
      → s.deferred ≡ r.deferred ++ node_id ∷ []
      → s.report ≡ r.report
      → Turn g node_id r (ok s, g)
  runs :
      (s : Round S) (h : ExecutionGraph)
      → s.progressed ≡ true
      → s.report ≡ add_executed node_id r.report
      → Ran g node_id h
      → Turn g node_id r (ok s, h)

module _ {ℓ} {S : Type ℓ} (handler : S → ExecutionNode → NodeExecutionOutcome × S)
    (g : ExecutionGraph) (ids : HasIds g) (node_id : String) (ready : IsReady g node_id)
    (r : Round S) where
  -- The node starts, and a method ends it.
  start_turn :
      (n : ExecutionNode) (end_node : Method (Unit {0})) (k : ExecutionGraph)
      → start_node node_id g ≡ (ok tt, moved node_id n running none g)
      → end_node (moved node_id n running none g) ≡ (ok tt, k)
      → Ran g node_id k
      → Turn g node_id r
          ((start_node node_id >> (end_node >> returns (executed handler node_id r))) g)
  start_turn n end_node k e f ran =
      let last : Method (Round S) = returns (executed handler node_id r) in
      let h : ExecutionGraph = moved node_id n running none g in
      subst (Turn g node_id r)
        (sym (
          bind_ok (start_node node_id) (λ _. end_node >> last) g h tt e
          ∙ bind_ok end_node (λ _. last) h k tt f))
        (runs (executed handler node_id r) k refl refl ran)

  fail_turn :
      (reason : String)
      → Turn g node_id r (run_outcome handler node_id (NodeExecutionOutcome.failed reason) r g)
  unfolding run_outcome is_step fail_node
  fail_turn reason =
      let (n, found, is_pending, e) = start_ready g node_id ids ready in
      start_turn n (fail_node node_id reason)
        (ended_graph g ids node_id n found is_pending failed (some reason) refl) e
        (ends g ids node_id n found is_pending failed (some reason) refl)
        (Ran-ended g ids node_id n found is_pending failed (some reason) refl)

  completes_node :
      (n : ExecutionNode) (artifacts : List ExecutionArtifact)
      (found : lookup node_id g.nodes ≡ some n) (is_pending : n.state ≡ pending)
      (step : is_step running succeeded ≡ true)
      → validate_artifacts g node_id artifacts ≡ ok tt
      → complete_node node_id artifacts (moved node_id n running none g) ≡ (
        ok tt,
        add_artifacts artifacts (ended_graph g ids node_id n found is_pending succeeded none step),
      )
  unfolding complete_node
  completes_node n artifacts found is_pending step valid =
      let h : ExecutionGraph = moved node_id n running none g in
      let k : ExecutionGraph = ended_graph g ids node_id n found is_pending succeeded none step in
      let same : validate_artifacts g node_id artifacts ≡ validate_artifacts h node_id artifacts =
        validate_artifacts-same g h node_id artifacts (unfold moved in refl) in
      let store : Method (Unit {0}) = changes (add_artifacts artifacts) in
      bind_ok (reads (λ x. validate_artifacts x node_id artifacts))
        (λ _. transition node_id succeeded none >> store) h h tt
        (ap (λ x. (x, h)) (sym same ∙ valid))
      ∙ bind_ok (transition node_id succeeded none) (λ _. store) h k tt
          (ends g ids node_id n found is_pending succeeded none step)

  succeed_turn :
      (artifacts : List ExecutionArtifact)
      → Turn g node_id r
          (run_outcome handler node_id (NodeExecutionOutcome.succeeded artifacts) r g)
  unfolding run_outcome is_step
  succeed_turn artifacts =
      let check : Method (Unit {0}) = reads (λ x. validate_artifacts x node_id artifacts) in
      let last : Method (Round S) =
        start_node node_id
        >> (complete_node node_id artifacts >> returns (executed handler node_id r)) in
      elim (Result-cases (validate_artifacts g node_id artifacts)) [
        | inr (x, invalid) ↦
            subst (Turn g node_id r)
              (sym (bind_err check (λ _. last) g g x (ap (λ y. (y, g)) invalid)))
              (faults x (validate_artifacts-faults g node_id artifacts x invalid))
        | inl (done, valid) ↦
            let (n, found, is_pending, e) = start_ready g node_id ids ready in
            let k : ExecutionGraph =
              ended_graph g ids node_id n found is_pending succeeded none refl in
            subst (Turn g node_id r)
              (sym (bind_ok check (λ _. last) g g tt (ap (λ y. (y, g)) valid)))
              (start_turn n (complete_node node_id artifacts) (add_artifacts artifacts k) e
                (completes_node n artifacts found is_pending refl valid)
                (Ran-add_artifacts g k node_id artifacts
                  (Ran-ended g ids node_id n found is_pending succeeded none refl)))
      ]

  cancel_turn :
      (reason : String)
      → Turn g node_id r (run_outcome handler node_id (NodeExecutionOutcome.cancelled reason) r g)
  unfolding run_outcome cancel_node is_cancellable set_state
  cancel_turn reason =
      let (n, found, is_pending, e) = start_ready g node_id ids ready in
      let k : ExecutionGraph = moved node_id n cancelled (some reason) g in
      subst (Turn g node_id r)
        (sym (
          bind_ok (cancel_node node_id reason) (λ _. returns (executed handler node_id r)) g k tt
            (ground (arith, found, is_pending))))
        (runs (executed handler node_id r) k refl refl
          (Ran-cancelled g ids node_id n reason found is_pending))

  outcome_turn :
      (outcome : NodeExecutionOutcome) → Turn g node_id r (run_outcome handler node_id outcome r g)
  unfolding run_outcome
  outcome_turn NodeExecutionOutcome.deferred =
      defers (record r { deferred = r.deferred ++ node_id ∷ [] }) refl refl refl
  outcome_turn (NodeExecutionOutcome.succeeded artifacts) = succeed_turn artifacts
  outcome_turn (NodeExecutionOutcome.failed reason) = fail_turn reason
  outcome_turn (NodeExecutionOutcome.cancelled reason) = cancel_turn reason

module _ {ℓ} {S : Type ℓ} (handler : S → ExecutionNode → NodeExecutionOutcome × S)
    (g : ExecutionGraph) (ids : HasIds g) (node_id : String) (ready : IsReady g node_id) where
  world_turn :
      (r : Round S) (world : S) (result : Result ExecutionGraphError (Round S) × ExecutionGraph)
      → Turn g node_id (record r { world = world }) result
      → Turn g node_id r result
  world_turn r world _ (faults e fault) = faults e fault
  world_turn r world _ (defers s p d st) = defers s p d st
  world_turn r world _ (runs s h p st ran) = runs s h p st ran

  pub run_node-Turn : (r : Round S) → Turn g node_id r (run_node handler node_id r g)
  unfolding run_node node
  run_node-Turn r =
      let (n, found, is_pending, e) = start_ready g node_id ids ready in
      let world : S = (handler r.world n).1 in
      rw (run_node, found)
        (world_turn r world _ (
          outcome_turn handler g ids node_id ready (record r { world = world })
            (handler r.world n).0))
