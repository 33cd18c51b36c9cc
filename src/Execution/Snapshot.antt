-- ===== src/Execution/Snapshot.antt =====
-- zhongshu-core/src/agent/execution_graph.rs: snapshots, and recovery from a checkpoint.
use zhongshu.Prelude.{
  String, ℕ, ◌+◌, Bool, true, false, not, ◌&&◌, ◌||◌, List, [], ◌∷◌, map, Option, none, some,
  Result, ok, err, ◌>>=◌, ◌>>◌, ensure, ok_or, fold_result, ◌==◌, is_blank, any, keep, find, eqb,
}
use zhongshu.OrderedMap.{Map, lookup, insert, contains_key, values, keys, insert_all}
use zhongshu.Execution.Method.{Method}
use zhongshu.Execution.Graph.{new, add_node, add_edge, ready_node_ids, validate_effect_expectation}
use zhongshu.Execution.Lifecycle.{set_state, resolution, is_empty}
use zhongshu.Execution.Settle.{settle_unreachable}
use zhongshu.Execution.Types.{
  ExecutionArtifact, ExecutionEdge, ExecutionEffectIntent, ExecutionGraph, ExecutionGraphCheckpoint,
  ExecutionGraphError, ExecutionGraphSnapshot, ExecutionNode, ExecutionNodeState,
  ExecutionReconciliation, ExecutionRecoveryReport, ExecutionTransition,
  artifact_of_missing_producer, cancelled, duplicate_artifact, duplicate_effect_intent,
  duplicate_reconciliation_sequence, effect_intent_of_missing_node, empty_effect_intent_id,
  execution_graph_checkpoint_version, failed, invalid_replay, invalid_snapshot, no_usable_evidence,
  pending, producer_not_succeeded, reconciliation_mismatch, reconciliation_of_missing_transition,
  recovery_required, resolution_without_reconciliation, running, skipped, state_eq, state_mismatch,
  succeeded, transition_of_missing_node, unexpected_sequence, unsupported_checkpoint_version,
}

-- `snapshot`.
unfoldable pub snapshot : ExecutionGraph → ExecutionGraphSnapshot
snapshot g = record {
  task_id = g.task_id;
  nodes = values g.nodes;
  edges = g.edges;
  artifacts = values g.artifacts;
  transitions = g.transitions;
  reconciliations = g.reconciliations;
  effect_intents = values g.effect_intents;
}

unfoldable pub checkpoint : ExecutionGraph → ExecutionGraphCheckpoint
checkpoint g = record { schema_version = execution_graph_checkpoint_version; graph = snapshot g }

-- A method called on a local graph that an error drops.
unfoldable pub after {ℓ} :
    {A : Type ℓ} → Method A → ExecutionGraph → Result ExecutionGraphError ExecutionGraph
after m g = elim (m g).0 [ ok _ ↦ ok (m g).1 | err e ↦ err e ]

-- The node of the snapshot, as it was before any transition.
unfoldable pub reset : ExecutionNode → ExecutionNode
reset node = record node { state = pending }

unfoldable pub build_topology :
    String → List ExecutionNode → List ExecutionEdge → Result ExecutionGraphError ExecutionGraph
build_topology task_id nodes edges = do
  empty ← new task_id
  noded ← fold_result (λ g node. after (add_node (reset node)) g) empty nodes
  fold_result (λ g edge. after (add_edge edge) g) noded edges

-- `valid_snapshot_transition`.
unfoldable pub valid_snapshot_transition : ExecutionNodeState → ExecutionNodeState → Bool
valid_snapshot_transition pending running = true
valid_snapshot_transition running succeeded = true
valid_snapshot_transition running failed = true
valid_snapshot_transition pending cancelled = true
valid_snapshot_transition running cancelled = true
valid_snapshot_transition pending skipped = true
valid_snapshot_transition running recovery_required = true
valid_snapshot_transition recovery_required succeeded = true
valid_snapshot_transition recovery_required failed = true
valid_snapshot_transition _ _ = false

-- The states that a replay of the transitions has reached, and the next sequence number.
pub record Replay : Type 0 where
  pub states : Map ExecutionNodeState
  pub expected : ℕ

-- `topology.nodes.keys().map(|id| (id, Pending))`.
unfoldable pub all_pending : List String → Map ExecutionNodeState
all_pending [] = []
all_pending (node_id ∷ node_ids) = (node_id, pending) ∷ all_pending node_ids

unfoldable pub replay_one : Replay → ExecutionTransition → Result ExecutionGraphError Replay
replay_one r t = do
  ensure (eqb t.sequence r.expected) (invalid_snapshot (unexpected_sequence t.sequence r.expected))
  state ←
      ok_or (lookup t.node_id r.states) (invalid_snapshot (transition_of_missing_node t.node_id))
  ensure (state_eq state t.from && valid_snapshot_transition t.from t.to)
      (invalid_snapshot (invalid_replay t.node_id t.from t.to))
  ok (record { states = insert t.node_id t.to r.states; expected = r.expected + 1 })

unfoldable pub is_state : Option ExecutionNodeState → ExecutionNodeState → Bool
is_state none s = false
is_state (some t) s = state_eq t s

unfoldable pub check_states :
    Map ExecutionNodeState → List ExecutionNode → Result ExecutionGraphError (Unit {0})
check_states states [] = ok tt
check_states states (node ∷ nodes) = do
  ensure (is_state (lookup node.id states) node.state) (invalid_snapshot (state_mismatch node.id))
  check_states states nodes

-- `BTreeSet<u64>`, of which the source asks membership only.
unfoldable pub has_number : ℕ → List ℕ → Bool
has_number n [] = false
has_number n (m ∷ ms) = eqb m n || has_number n ms

unfoldable pub is_unusable : ExecutionReconciliation → Bool
is_unusable r = is_blank r.reason || is_empty r.evidence_refs || any is_blank r.evidence_refs

unfoldable pub matches_reconciliation : ExecutionTransition → ExecutionReconciliation → Bool
matches_reconciliation t r =
    t.node_id == r.node_id
    && state_eq t.from recovery_required
    && state_eq t.to (resolution r.decision)

-- One round of the loop over the reconciliations; the state is `reconciliation_sequences`.
unfoldable pub check_reconciliation :
    List ExecutionTransition
    → List ℕ
    → ExecutionReconciliation
    → Result ExecutionGraphError (List ℕ)
check_reconciliation transitions seen r = do
  ensure (not (is_unusable r)) (invalid_snapshot (no_usable_evidence r.node_id))
  ensure (not (has_number r.transition_sequence seen))
      (invalid_snapshot (duplicate_reconciliation_sequence r.transition_sequence))
  t ←
      ok_or (find (λ t. eqb t.sequence r.transition_sequence) transitions)
        (invalid_snapshot (reconciliation_of_missing_transition r.node_id r.transition_sequence))
  ensure (matches_reconciliation t r)
      (invalid_snapshot (reconciliation_mismatch r.node_id r.transition_sequence))
  ok (r.transition_sequence ∷ seen)

unfoldable pub check_resolutions :
    List ℕ → List ExecutionTransition → Result ExecutionGraphError (Unit {0})
check_resolutions seen [] = ok tt
check_resolutions seen (t ∷ transitions) = do
  ensure (has_number t.sequence seen)
      (invalid_snapshot (resolution_without_reconciliation t.sequence))
  check_resolutions seen transitions

unfoldable pub is_resolution : ExecutionTransition → Bool
is_resolution t = state_eq t.from recovery_required

unfoldable pub restore_artifact :
    Map ExecutionNodeState
    → Map ExecutionArtifact
    → ExecutionArtifact
    → Result ExecutionGraphError (Map ExecutionArtifact)
restore_artifact states artifacts a = do
  state ←
      ok_or (lookup a.producer_node states)
        (invalid_snapshot (artifact_of_missing_producer a.id a.producer_node))
  ensure (state_eq state succeeded) (invalid_snapshot (producer_not_succeeded a.id a.producer_node))
  ensure (not (contains_key a.id artifacts)) (duplicate_artifact a.id)
  ok (insert a.id a artifacts)

unfoldable pub restore_intent :
    Map ExecutionNodeState
    → Map ExecutionEffectIntent
    → ExecutionEffectIntent
    → Result ExecutionGraphError (Map ExecutionEffectIntent)
restore_intent states intents i = do
  ensure (not (is_blank i.id)) empty_effect_intent_id
  ensure (contains_key i.node_id states)
      (invalid_snapshot (effect_intent_of_missing_node i.id i.node_id))
  validate_effect_expectation i.expectation
  ensure (not (contains_key i.id intents)) (duplicate_effect_intent i.id)
  ok (insert i.id i intents)

unfoldable pub validated_snapshot :
    ExecutionGraphSnapshot → Result ExecutionGraphError ExecutionGraph
validated_snapshot s = do
  topology ← build_topology s.task_id s.nodes s.edges
  replay ←
      fold_result replay_one (record { states = all_pending (keys topology.nodes); expected = 1 })
        s.transitions
  check_states replay.states s.nodes
  seen ← fold_result (check_reconciliation s.transitions) [] s.reconciliations
  check_resolutions seen (keep is_resolution s.transitions)
  artifacts ← fold_result (restore_artifact replay.states) [] s.artifacts
  effect_intents ← fold_result (restore_intent replay.states) [] s.effect_intents
  ok (record {
    task_id = s.task_id;
    nodes = insert_all (λ n. n.id) [] s.nodes;
    edges = s.edges;
    artifacts = artifacts;
    transitions = s.transitions;
    reconciliations = s.reconciliations;
    effect_intents = effect_intents;
    next_sequence = replay.expected;
  })

unfoldable pub is_running : ExecutionNode → Bool
is_running node = state_eq node.state running

unfoldable pub require_recovery :
    ExecutionGraph → String → Result ExecutionGraphError ExecutionGraph
require_recovery g node_id =
    after
      (set_state node_id running recovery_required
        (some "process ended while node was running; external effects are unknown"))
      g

-- `settle_unreachable` on a local graph, with its answer.
unfoldable pub settled : ExecutionGraph → Result ExecutionGraphError (List String × ExecutionGraph)
settled g = elim (settle_unreachable g).0 [
  | ok skipped_nodes ↦ ok (skipped_nodes, (settle_unreachable g).1)
  | err e ↦ err e
]

unfoldable pub recover_from_checkpoint :
    ExecutionGraphCheckpoint → Result ExecutionGraphError (ExecutionGraph × ExecutionRecoveryReport)
recover_from_checkpoint c = do
  ensure (eqb c.schema_version execution_graph_checkpoint_version)
      (unsupported_checkpoint_version c.schema_version)
  graph ← validated_snapshot c.graph
  let running_nodes = map (λ n. n.id) (keep is_running (values graph.nodes))
  marked ← fold_result require_recovery graph running_nodes
  (skipped_nodes, final) ← settled marked
  ok (
    final,
    record {
      recovery_required_nodes = running_nodes;
      skipped_nodes = skipped_nodes;
      ready_nodes = ready_node_ids final;
    },
  )
