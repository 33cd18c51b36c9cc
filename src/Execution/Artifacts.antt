-- ===== src/Execution/Artifacts.antt =====
-- What `validate_artifacts` refuses, and what it looks at.
use zhongshu.Prelude.{
  String, List, [], ◌∷◌, err, inl, inr, Bool-cases, ◌≡◌, refl, subst, arith, ◌==◌,
}
use zhongshu.OrderedMap.{contains_key}
use zhongshu.Execution.Lifecycle.{validate_artifacts}
use zhongshu.Execution.Types.{
  ExecutionGraph, ExecutionGraphError, ExecutionArtifact, duplicate_artifact,
  artifact_producer_mismatch,
}

-- The errors of artifacts that do not fit.
pub data IsArtifactFault : ExecutionGraphError → Type 0 where
  is_mismatch :
      (artifact_id expected actual : String)
      → IsArtifactFault (artifact_producer_mismatch artifact_id expected actual)
  is_duplicate : (artifact_id : String) → IsArtifactFault (duplicate_artifact artifact_id)

pub validate_artifacts-faults :
    (g : ExecutionGraph) (node_id : String) (artifacts : List ExecutionArtifact)
    (e : ExecutionGraphError)
    → validate_artifacts g node_id artifacts ≡ err e
    → IsArtifactFault e
unfolding validate_artifacts
validate_artifacts-faults g node_id [] e h = absurd (ground (arith, h))
validate_artifacts-faults g node_id (a ∷ artifacts) e h =
    elim (Bool-cases (a.producer_node == node_id)) [
      | inr other ↦
          subst (IsArtifactFault) (ground (arith, h, other))
            (is_mismatch a.id node_id a.producer_node)
      | inl mine ↦ elim (Bool-cases (contains_key a.id g.artifacts)) [
        | inl there ↦ subst (IsArtifactFault) (ground (arith, h, mine, there)) (is_duplicate a.id)
        | inr fresh ↦
            validate_artifacts-faults g node_id artifacts e (ground (arith, h, mine, fresh))
      ]
    ]

pub validate_artifacts-same :
    (g h : ExecutionGraph) (node_id : String) (artifacts : List ExecutionArtifact)
    → g.artifacts ≡ h.artifacts
    → validate_artifacts g node_id artifacts ≡ validate_artifacts h node_id artifacts
unfolding validate_artifacts
validate_artifacts-same g h node_id [] e = refl
validate_artifacts-same g h node_id (a ∷ artifacts) e =
    rw (e, validate_artifacts-same g h node_id artifacts e) refl
