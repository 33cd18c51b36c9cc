-- ===== src/Execution/Steps.antt =====
-- The calls that a graph can get, as a step relation, and what holds after any history of calls.
use zhongshu.Prelude.{String, List, ◌≡◌, arith}
use zhongshu.OrderedMap.{insert_all}
use zhongshu.Execution.Graph.{add_node, add_edge, record_effect_intents}
use zhongshu.Execution.Lifecycle.{
  start_node, start_ready_batch, complete_node, fail_node, cancel_node, reconcile_node,
}
use zhongshu.Execution.Settle.{settle_unreachable}
use zhongshu.Execution.Readiness.{HasIds}
use zhongshu.Execution.Preserved
use zhongshu.Execution.Kept
use zhongshu.Execution.Kept.{IsPreserved, HasIds-IsPreserved}
use zhongshu.Execution.Types.{
  ExecutionGraph, ExecutionNode, ExecutionEdge, ExecutionArtifact, ExecutionEffectIntent,
  ExecutionReconciliationDecision, pending,
}

-- One call of a method, with any arguments; a node is added in the state `pending`, in which
-- `ExecutionNode::pending` makes it.
pub data Step (g : ExecutionGraph) : ExecutionGraph → Type 0 where
  adds_node : (node : ExecutionNode) → node.state ≡ pending → Step g (add_node node g).1
  adds_edge : (edge : ExecutionEdge) → Step g (add_edge edge g).1
  records_effect_intents :
      (node_id : String) (intents : List ExecutionEffectIntent)
      → Step g (record_effect_intents node_id intents g).1
  starts : (node_id : String) → Step g (start_node node_id g).1
  starts_batch : (node_ids : List String) → Step g (start_ready_batch node_ids g).1
  completes :
      (node_id : String) (artifacts : List ExecutionArtifact)
      → Step g (complete_node node_id artifacts g).1
  fails : (node_id reason : String) → Step g (fail_node node_id reason g).1
  cancels : (node_id reason : String) → Step g (cancel_node node_id reason g).1
  reconciles :
      (node_id : String) (decision : ExecutionReconciliationDecision) (reason : String)
      (evidence_refs : List String) (artifacts : List ExecutionArtifact)
      → Step g (reconcile_node node_id decision reason evidence_refs artifacts g).1
  settles : Step g (settle_unreachable g).1

-- Any history of calls.
pub data Steps (g : ExecutionGraph) : ExecutionGraph → Type 0 where
  here : Steps g g
  next : {h k : ExecutionGraph} → Steps g h → Step h k → Steps g k

module _ {ℓ} (P : ExecutionGraph → Type ℓ) (keeps : IsPreserved P) where
  record_effect_intents_keeps :
      (node_id : String) (intents : List ExecutionEffectIntent) (g : ExecutionGraph)
      → P g
      → P (record_effect_intents node_id intents g).1
  unfolding record_effect_intents
  record_effect_intents_keeps node_id intents g p = ground (
    arith,
    p,
    keeps.frame g g.artifacts g.reconciliations (insert_all (λ i. i.id) g.effect_intents intents) p,
  )

module _ {ℓ} (P : ExecutionGraph → Type ℓ) (keeps : IsPreserved P)
    (node_keeps : (node : ExecutionNode) (g : ExecutionGraph)
      → node.state ≡ pending
      → HasIds g
      → P g
      → P (add_node node g).1)
    (edge_keeps : (edge : ExecutionEdge) (g : ExecutionGraph)
      → HasIds g
      → P g
      → P (add_edge edge g).1) where
  pub Step_keeps : {g h : ExecutionGraph} → Step g h → HasIds g → P g → P h
  Step_keeps {g} (adds_node node fresh) ids p = node_keeps node g fresh ids p
  Step_keeps {g} (adds_edge edge) ids p = edge_keeps edge g ids p
  Step_keeps {g} (records_effect_intents node_id intents) ids p =
      record_effect_intents_keeps P keeps node_id intents g p
  Step_keeps {g} (starts node_id) ids p = Preserved.start_node_keeps P keeps.moves node_id g ids p
  Step_keeps {g} (starts_batch node_ids) ids p =
      Preserved.start_ready_batch_keeps P keeps.moves node_ids g ids p
  Step_keeps {g} (completes node_id artifacts) ids p =
      Kept.complete_node_keeps P keeps node_id artifacts g p
  Step_keeps {g} (fails node_id reason) ids p =
      Preserved.fail_node_keeps P keeps.moves node_id reason g p
  Step_keeps {g} (cancels node_id reason) ids p =
      Preserved.cancel_node_keeps P keeps.moves node_id reason g p
  Step_keeps {g} (reconciles node_id decision reason evidence_refs artifacts) ids p =
      Kept.reconcile_node_keeps P keeps node_id decision reason evidence_refs artifacts g p
  Step_keeps {g} settles ids p = Preserved.settle_unreachable_keeps P keeps.moves g p
