-- ===== src/Execution/Kept.antt =====
-- What every call keeps: the moves, and the calls that also write artifacts and reconciliations.
use zhongshu.Prelude.{String, List, none, some, inl, inr, ◌≡◌, arith}
use zhongshu.OrderedMap.{Map, lookup}
use zhongshu.Execution.Lifecycle.{
  moved, add_artifacts, complete_node, resolution, add_reconciliation, reconcile_node,
}
use zhongshu.Execution.Snapshot.{valid_snapshot_transition}
use zhongshu.Execution.Preserved.{IsKeptByMoves, HasIds-move}
use zhongshu.Execution.Readiness.{HasIds}
use zhongshu.Execution.Types.{
  ExecutionGraph, ExecutionNode, ExecutionArtifact, ExecutionReconciliation,
  ExecutionReconciliationDecision, ExecutionEffectIntent, running, succeeded, recovery_required,
}
use zhongshu.Execution.Completion.{complete_node_result, reconcile_node_result}

-- The fields that are no nodes and no edges, given anew.
abbrev pub framed :
    Map ExecutionArtifact
    → List ExecutionReconciliation
    → Map ExecutionEffectIntent
    → ExecutionGraph
    → ExecutionGraph
framed a r i g = record g { artifacts = a; reconciliations = r; effect_intents = i }

pub record IsPreserved {ℓ} (P : ExecutionGraph → Type ℓ) : Type ℓ where
  pub moves : IsKeptByMoves P
  pub open moves use *
  pub frame :
      (g : ExecutionGraph) (a : Map ExecutionArtifact) (r : List ExecutionReconciliation)
      (i : Map ExecutionEffectIntent)
      → P g
      → P (framed a r i g)

pub HasIds-IsPreserved : IsPreserved HasIds
HasIds-IsPreserved = record {
  moves = record {
    move =
        λ g node_id node to reason found valid met h. HasIds-move g node_id node to reason found h;
  };
  frame = λ g a r i h. record { sorted = h.sorted; keyed = h.keyed };
}

module _ {ℓ} (P : ExecutionGraph → Type ℓ) (keeps : IsPreserved P) where
  complete_move :
      (node_id : String) (node : ExecutionNode) (g : ExecutionGraph)
      → lookup node_id g.nodes ≡ some node
      → node.state ≡ running
      → P g
      → P (moved node_id node succeeded none g)
  unfolding valid_snapshot_transition
  complete_move node_id node g found runs p =
      keeps.move g node_id node succeeded none found (ground arith) (λ e. cc) p

  pub complete_node_keeps :
      (node_id : String) (artifacts : List ExecutionArtifact) (g : ExecutionGraph)
      → P g
      → P (complete_node node_id artifacts g).1
  unfolding add_artifacts
  complete_node_keeps node_id artifacts g p = elim (complete_node_result node_id artifacts g) [
    | inl (e, refused) ↦ rw refused p
    | inr (node, found, runs, valid, done) ↦ rw done (
        keeps.frame (moved node_id node succeeded none g) _ _ _
          (complete_move node_id node g found runs p))
  ]

  resolve_move :
      (node_id : String) (node : ExecutionNode) (decision : ExecutionReconciliationDecision)
      (reason : String) (g : ExecutionGraph)
      → lookup node_id g.nodes ≡ some node
      → node.state ≡ recovery_required
      → P g
      → P (moved node_id node (resolution decision) (some reason) g)
  unfolding valid_snapshot_transition resolution
  resolve_move node_id node decision reason g found lost p =
      keeps.move g node_id node (resolution decision) (some reason) found (ground arith)
        (λ e. ground arith) p

  pub reconcile_node_keeps :
      (node_id : String) (decision : ExecutionReconciliationDecision) (reason : String)
      (evidence_refs : List String) (artifacts : List ExecutionArtifact) (g : ExecutionGraph)
      → P g
      → P (reconcile_node node_id decision reason evidence_refs artifacts g).1
  unfolding add_artifacts add_reconciliation
  reconcile_node_keeps node_id decision reason evidence_refs artifacts g p =
      elim (reconcile_node_result node_id decision reason evidence_refs artifacts g) [
        | inl (e, refused) ↦ rw refused p
        | inr (told, shown, node, found, lost, valid, done) ↦ rw done (
            keeps.frame (moved node_id node (resolution decision) (some reason) g) _ _ _
              (resolve_move node_id node decision reason g found lost p))
      ]
