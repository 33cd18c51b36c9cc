-- ===== src/Execution/Types.antt =====
-- The data of zhongshu-core/src/agent/execution_graph.rs: nodes, edges, artifacts, effect intents,
-- transitions, reconciliations, errors, and the graph that holds them.
use zhongshu.Prelude.{String, ℕ, Bool, true, false, List, Option, none, holds}
use zhongshu.Prelude.Int.{ℤ}
use zhongshu.OrderedMap.{Map}

pub data ExecutionNodeKind : Type 0 where
  work contract claim propose verify review decide apply release finalize : ExecutionNodeKind

pub data ExecutionEdgeKind : Type 0 where
  requires consumes validates supersedes finally : ExecutionEdgeKind

pub data ExecutionNodeState : Type 0 where
  pending running succeeded failed skipped cancelled recovery_required : ExecutionNodeState

unfoldable pub ExecutionNodeKind-discrete : Discrete ExecutionNodeKind
ExecutionNodeKind-discrete = hlevel

unfoldable pub ExecutionEdgeKind-discrete : Discrete ExecutionEdgeKind
ExecutionEdgeKind-discrete = hlevel

unfoldable pub ExecutionNodeState-discrete : Discrete ExecutionNodeState
ExecutionNodeState-discrete = hlevel

-- The derived `==` of the enums.
abbrev pub kind_eq : ExecutionNodeKind → ExecutionNodeKind → Bool
kind_eq a b = holds (ExecutionNodeKind-discrete a b)

abbrev pub edge_kind_eq : ExecutionEdgeKind → ExecutionEdgeKind → Bool
edge_kind_eq a b = holds (ExecutionEdgeKind-discrete a b)

abbrev pub state_eq : ExecutionNodeState → ExecutionNodeState → Bool
state_eq a b = holds (ExecutionNodeState-discrete a b)

abbrev pub is_terminal : ExecutionNodeState → Bool
is_terminal succeeded = true
is_terminal failed = true
is_terminal skipped = true
is_terminal cancelled = true
is_terminal recovery_required = true
is_terminal _ = false

abbrev pub is_success : ExecutionNodeState → Bool
is_success s = state_eq s succeeded

pub record NodeRequirements : Type 0 where
  pub capabilities : List String
  pub read_only : Bool

pub record ExecutionNode : Type 0 where
  pub id : String
  pub kind : ExecutionNodeKind
  pub objective : String
  pub executor : Option String
  pub requirements : NodeRequirements
  pub state : ExecutionNodeState

pub record ExecutionEdge : Type 0 where
  pub from : String
  pub to : String
  pub kind : ExecutionEdgeKind

pub record ExecutionArtifact : Type 0 where
  pub id : String
  pub producer_node : String
  pub kind : String
  pub summary : String
  pub evidence_refs : List String
  pub uncertainties : List String

pub data ExecutionEffectExpectation : Type 0 where
  -- path, before_hash, after_hash, existed_before
  workspace_file : String → String → String → Bool → ExecutionEffectExpectation
  -- agent_id, file_path, operation, conv_id, expected_active
  file_claim : String → String → String → ℤ → Bool → ExecutionEffectExpectation

pub record ExecutionEffectIntent : Type 0 where
  pub id : String
  pub node_id : String
  pub expectation : ExecutionEffectExpectation

pub record ExecutionTransition : Type 0 where
  pub sequence : ℕ
  pub node_id : String
  pub from : ExecutionNodeState
  pub to : ExecutionNodeState
  pub reason : Option String

pub data ExecutionReconciliationDecision : Type 0 where
  confirmed_succeeded confirmed_failed : ExecutionReconciliationDecision

pub record ExecutionReconciliation : Type 0 where
  pub node_id : String
  pub decision : ExecutionReconciliationDecision
  pub reason : String
  pub evidence_refs : List String
  pub transition_sequence : ℕ

pub data NodeExecutionOutcome : Type 0 where
  succeeded : List ExecutionArtifact → NodeExecutionOutcome
  failed : String → NodeExecutionOutcome
  cancelled : String → NodeExecutionOutcome
  deferred : NodeExecutionOutcome

pub record ExecutionScheduleReport : Type 0 where
  pub executed_nodes : List String
  pub skipped_nodes : List String
  pub deferred_nodes : List String
  pub stalled : Bool

pub record ExecutionGraphSnapshot : Type 0 where
  pub task_id : String
  pub nodes : List ExecutionNode
  pub edges : List ExecutionEdge
  pub artifacts : List ExecutionArtifact
  pub transitions : List ExecutionTransition
  pub reconciliations : List ExecutionReconciliation
  pub effect_intents : List ExecutionEffectIntent

abbrev pub execution_graph_checkpoint_version : ℕ
execution_graph_checkpoint_version = 1

pub record ExecutionGraphCheckpoint : Type 0 where
  pub schema_version : ℕ
  pub graph : ExecutionGraphSnapshot

pub record ExecutionRecoveryReport : Type 0 where
  pub recovery_required_nodes : List String
  pub skipped_nodes : List String
  pub ready_nodes : List String

-- What the text of an `InvalidSnapshot` error says: one constructor for each message of the source,
-- with the values that the message prints.
pub data SnapshotFault : Type 0 where
  effect_intent_of_other_node : String → String → String → SnapshotFault
  unexpected_sequence : ℕ → ℕ → SnapshotFault
  transition_of_missing_node : String → SnapshotFault
  invalid_replay : String → ExecutionNodeState → ExecutionNodeState → SnapshotFault
  state_mismatch : String → SnapshotFault
  no_usable_evidence : String → SnapshotFault
  duplicate_reconciliation_sequence : ℕ → SnapshotFault
  reconciliation_of_missing_transition : String → ℕ → SnapshotFault
  reconciliation_mismatch : String → ℕ → SnapshotFault
  resolution_without_reconciliation : ℕ → SnapshotFault
  artifact_of_missing_producer : String → String → SnapshotFault
  producer_not_succeeded : String → String → SnapshotFault
  effect_intent_of_missing_node : String → String → SnapshotFault
  invalid_expectation : SnapshotFault

pub data ExecutionGraphError : Type 0 where
  empty_task_id empty_node_id : ExecutionGraphError
  duplicate_node missing_node : String → ExecutionGraphError
  duplicate_edge : String → String → ExecutionGraphError
  duplicate_batch_node : String → ExecutionGraphError
  cycle : String → String → ExecutionGraphError
  multiple_apply_nodes : ExecutionGraphError
  target_already_started node_not_ready : String → ExecutionGraphError
  invalid_transition : String → ExecutionNodeState → ExecutionNodeState → ExecutionGraphError
  duplicate_artifact : String → ExecutionGraphError
  artifact_producer_mismatch : String → String → String → ExecutionGraphError
  scheduler_stalled : List String → ExecutionGraphError
  unsupported_checkpoint_version : ℕ → ExecutionGraphError
  invalid_snapshot : SnapshotFault → ExecutionGraphError
  node_not_recovery_required : String → ExecutionGraphError
  empty_reconciliation_reason missing_reconciliation_evidence : ExecutionGraphError
  failed_reconciliation_has_artifacts empty_effect_intent_id : ExecutionGraphError
  duplicate_effect_intent effect_intent_node_already_started : String → ExecutionGraphError

pub record ExecutionGraph : Type 0 where
  pub task_id : String
  pub nodes : Map ExecutionNode
  pub edges : List ExecutionEdge
  pub artifacts : Map ExecutionArtifact
  pub transitions : List ExecutionTransition
  pub reconciliations : List ExecutionReconciliation
  pub effect_intents : Map ExecutionEffectIntent
  pub next_sequence : ℕ

-- `ExecutionNode::pending`.
abbrev pub pending_node : String → ExecutionNodeKind → String → ExecutionNode
pending_node id kind objective = record {
  id = id;
  kind = kind;
  objective = objective;
  executor = none;
  requirements = record { capabilities = List.[]; read_only = false };
  state = pending;
}
