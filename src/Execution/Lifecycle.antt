-- ===== src/Execution/Lifecycle.antt =====
-- zhongshu-core/src/agent/execution_graph.rs: the methods that move a node from state to state.
use zhongshu.Prelude.{
  String, ℕ, ◌+◌, Bool, true, false, not, ◌||◌, List, [], ◌∷◌, ◌++◌, Option, none, some, Result, ok,
  err, if◌then◌else◌, ◌==◌, is_blank, any,
}
use zhongshu.OrderedMap.{lookup, insert, contains_key, insert_all}
use zhongshu.Execution.Method.{Method, ◌>>◌, reads, changes, for_each}
use zhongshu.Execution.Graph.{ready_node_ids, member}
use zhongshu.Execution.Types.{
  ExecutionGraph, ExecutionGraphError, ExecutionNode, ExecutionNodeState, ExecutionArtifact,
  ExecutionReconciliationDecision, pending, running, succeeded, failed, cancelled,
  recovery_required, confirmed_succeeded, confirmed_failed, state_eq, missing_node,
  invalid_transition, node_not_ready, duplicate_batch_node, artifact_producer_mismatch,
  duplicate_artifact, empty_reconciliation_reason, missing_reconciliation_evidence,
  node_not_recovery_required, failed_reconciliation_has_artifacts,
}

-- The graph after the node `node` moved to `to`, and the move is on record.
unfoldable pub moved :
    String → ExecutionNode → ExecutionNodeState → Option String → ExecutionGraph → ExecutionGraph
moved node_id node to reason g = record g {
  nodes = insert node_id (record node { state = to }) g.nodes;
  transitions =
      g.transitions
      ++ record {
        sequence = g.next_sequence;
        node_id = node_id;
        from = node.state;
        to = to;
        reason = reason;
      }
        ∷ [];
  next_sequence = g.next_sequence + 1;
}

unfoldable pub set_state :
    String → ExecutionNodeState → ExecutionNodeState → Option String → Method (Unit {0})
set_state node_id from to reason g = elim (lookup node_id g.nodes) [
  | none ↦ (err (missing_node node_id), g)
  | some node ↦
      if state_eq node.state from
      then (ok tt, moved node_id node to reason g)
      else (err (invalid_transition node_id node.state to), g)
]

-- The `matches!` of `transition`.
unfoldable pub is_step : ExecutionNodeState → ExecutionNodeState → Bool
is_step pending running = true
is_step running succeeded = true
is_step running failed = true
is_step _ _ = false

unfoldable pub transition : String → ExecutionNodeState → Option String → Method (Unit {0})
transition node_id to reason g = elim (lookup node_id g.nodes) [
  | none ↦ (err (missing_node node_id), g)
  | some node ↦
      if not (is_step node.state to)
      then (err (invalid_transition node_id node.state to), g)
      else set_state node_id node.state to reason g
]

unfoldable pub start_node : String → Method (Unit {0})
start_node node_id g =
    if not (any (λ ready. ready == node_id) (ready_node_ids g))
    then (err (node_not_ready node_id), g)
    else transition node_id running none g

-- The first loop of `start_ready_batch`: nothing is written.
unfoldable pub validate_batch :
    ExecutionGraph → List String → List String → List String → Result ExecutionGraphError (Unit {0})
validate_batch g ready selected [] = ok tt
validate_batch g ready selected (node_id ∷ node_ids) =
    if not (contains_key node_id g.nodes)
    then err (missing_node node_id)
    else if member node_id selected
    then err (duplicate_batch_node node_id)
    else if not (member node_id ready)
    then err (node_not_ready node_id)
    else validate_batch g ready (node_id ∷ selected) node_ids

unfoldable pub start_ready_batch : List String → Method (Unit {0})
start_ready_batch node_ids = do
  reads (λ g. validate_batch g (ready_node_ids g) [] node_ids)
  for_each (λ node_id. transition node_id running none) node_ids

unfoldable pub validate_artifacts :
    ExecutionGraph → String → List ExecutionArtifact → Result ExecutionGraphError (Unit {0})
validate_artifacts g node_id [] = ok tt
validate_artifacts g node_id (artifact ∷ artifacts) =
    if not (artifact.producer_node == node_id)
    then err (artifact_producer_mismatch artifact.id node_id artifact.producer_node)
    else if contains_key artifact.id g.artifacts
    then err (duplicate_artifact artifact.id)
    else validate_artifacts g node_id artifacts

unfoldable pub add_artifacts : List ExecutionArtifact → ExecutionGraph → ExecutionGraph
add_artifacts artifacts g = record g { artifacts = insert_all (λ a. a.id) g.artifacts artifacts }

unfoldable pub complete_node : String → List ExecutionArtifact → Method (Unit {0})
complete_node node_id artifacts = do
  reads (λ g. validate_artifacts g node_id artifacts)
  transition node_id succeeded none
  changes (add_artifacts artifacts)

unfoldable pub fail_node : String → String → Method (Unit {0})
fail_node node_id reason = transition node_id failed (some reason)

unfoldable pub is_cancellable : ExecutionNodeState → Bool
is_cancellable pending = true
is_cancellable running = true
is_cancellable _ = false

unfoldable pub cancel_node : String → String → Method (Unit {0})
cancel_node node_id reason g = elim (lookup node_id g.nodes) [
  | none ↦ (err (missing_node node_id), g)
  | some node ↦
      if not (is_cancellable node.state)
      then (err (invalid_transition node_id node.state cancelled), g)
      else set_state node_id node.state cancelled (some reason) g
]

unfoldable pub resolution : ExecutionReconciliationDecision → ExecutionNodeState
resolution confirmed_succeeded = succeeded
resolution confirmed_failed = failed

-- What a decision asks of the artifacts that come with it.
unfoldable pub check_decision :
    ExecutionGraph
    → String
    → ExecutionReconciliationDecision
    → List ExecutionArtifact
    → Result ExecutionGraphError (Unit {0})
check_decision g node_id confirmed_failed (artifact ∷ artifacts) =
    err failed_reconciliation_has_artifacts
check_decision g node_id confirmed_failed [] = ok tt
check_decision g node_id confirmed_succeeded artifacts = validate_artifacts g node_id artifacts

unfoldable pub is_empty {ℓ} : {A : Type ℓ} → List A → Bool
is_empty [] = true
is_empty (_ ∷ _) = false

unfoldable pub add_reconciliation :
    String
    → ExecutionReconciliationDecision
    → String
    → List String
    → ℕ
    → ExecutionGraph
    → ExecutionGraph
add_reconciliation node_id decision reason evidence_refs transition_sequence g = record g {
  reconciliations =
      g.reconciliations
      ++ record {
        node_id = node_id;
        decision = decision;
        reason = reason;
        evidence_refs = evidence_refs;
        transition_sequence = transition_sequence;
      }
        ∷ [];
}

-- `reconcile_node` from the check of the artifacts on.
unfoldable pub resolve_node :
    String
    → ExecutionReconciliationDecision
    → String
    → List String
    → List ExecutionArtifact
    → ℕ
    → Method (Unit {0})
resolve_node node_id decision reason evidence_refs artifacts transition_sequence = do
  reads (λ h. check_decision h node_id decision artifacts)
  set_state node_id recovery_required (resolution decision) (some reason)
  changes (add_artifacts artifacts)
  changes (add_reconciliation node_id decision reason evidence_refs transition_sequence)

unfoldable pub reconcile_node :
    String
    → ExecutionReconciliationDecision
    → String
    → List String
    → List ExecutionArtifact
    → Method (Unit {0})
reconcile_node node_id decision reason evidence_refs artifacts g =
    if is_blank reason
    then (err empty_reconciliation_reason, g)
    else if is_empty evidence_refs || any is_blank evidence_refs
    then (err missing_reconciliation_evidence, g)
    else elim (lookup node_id g.nodes) [
      | none ↦ (err (missing_node node_id), g)
      | some node ↦
          if not (state_eq node.state recovery_required)
          then (err (node_not_recovery_required node_id), g)
          else resolve_node node_id decision reason evidence_refs artifacts g.next_sequence g
    ]
