-- ===== src/Execution/Ends.antt =====
-- How the methods that end a running node leave the graph, outcome by outcome.
use zhongshu.Prelude.{
  String, List, [], none, some, inl, inr, Result, ok, Bool-cases, Option-cases, ◌≡◌, refl, ap,
  subst, arith,
}
use zhongshu.OrderedMap.{lookup}
use zhongshu.Execution.Lifecycle.{
  moved, complete_node, set_state, fail_node, cancel_node, is_cancellable,
}
use zhongshu.Execution.Moves.{state_of, state_of_found, transition_result}
use zhongshu.Execution.Types.{
  ExecutionGraph, ExecutionGraphError, ExecutionNode, ExecutionNodeState, ExecutionArtifact,
  running, succeeded, failed, cancelled, NodeExecutionOutcome,
}
use zhongshu.Execution.Completed.{
  Moves, HasArtifacts, last_artifact, moved-Moves, complete_node_effect,
}

-- What an outcome makes of the graph in which its node is running.
abbrev pub Ends : NodeExecutionOutcome → String → ExecutionGraph → ExecutionGraph → Type 0
Ends (NodeExecutionOutcome.succeeded artifacts) node_id g h =
    Moves node_id running succeeded none g h × HasArtifacts artifacts g h
Ends (NodeExecutionOutcome.failed reason) node_id g h =
    Moves node_id running failed (some reason) g h × HasArtifacts [] g h
Ends (NodeExecutionOutcome.cancelled reason) node_id g h =
    Moves node_id running cancelled (some reason) g h × HasArtifacts [] g h
Ends NodeExecutionOutcome.deferred node_id g h = ⊥

module _ (node_id : String) (reason : String) (g : ExecutionGraph)
    (is_running : state_of g node_id ≡ some running) where
  moved-Ends :
      (node : ExecutionNode) (to : ExecutionNodeState) (h : ExecutionGraph)
      → lookup node_id g.nodes ≡ some node
      → moved node_id node to (some reason) g ≡ h
      → Moves node_id running to (some reason) g h × HasArtifacts [] g h
  unfolding moved last_artifact
  moved-Ends node to h found e =
      let at = state_of_found g node_id node found in
      let same_state : node.state ≡ running = ground (arith, at, is_running) in
      subst (λ k. Moves node_id running to (some reason) g k × HasArtifacts [] g k) e
        (
          subst (λ s. Moves node_id s to (some reason) g (moved node_id node to (some reason) g))
              same_state (moved-Moves node_id node to (some reason) g found),
          λ id. refl,
        )

  pub fail_node-Ends :
      (h : ExecutionGraph)
      → fail_node node_id reason g ≡ (ok tt, h)
      → Ends (NodeExecutionOutcome.failed reason) node_id g h
  unfolding fail_node
  fail_node-Ends h e = elim (transition_result node_id failed (some reason) g) [
    | inl (x, refused) ↦ absurd (ground (arith, e, refused))
    | inr (node, found, step, done) ↦ moved-Ends node failed h found (ground (arith, e, done))
  ]

  pub cancel_node-Ends :
      (h : ExecutionGraph)
      → cancel_node node_id reason g ≡ (ok tt, h)
      → Ends (NodeExecutionOutcome.cancelled reason) node_id g h
  unfolding cancel_node set_state
  cancel_node-Ends h e = elim (Option-cases (lookup node_id g.nodes)) [
    | inl f ↦ absurd (ground (arith, e, f))
    | inr (node, f) ↦ elim (Bool-cases (is_cancellable node.state)) [
      | inr bad ↦ absurd (ground (arith, e, f, bad))
      | inl good ↦
          let done : moved node_id node cancelled (some reason) g ≡ h =
            ground (arith, e, f, good) in
          moved-Ends node cancelled h f done
    ]
  ]

pub complete_node-Ends :
    (node_id : String) (artifacts : List ExecutionArtifact) (g h : ExecutionGraph)
    → complete_node node_id artifacts g ≡ (ok tt, h)
    → Ends (NodeExecutionOutcome.succeeded artifacts) node_id g h
complete_node-Ends node_id artifacts g h e = elim (complete_node_effect node_id artifacts g) [
  | inl (x, refused) ↦ absurd (ground (arith, e, refused))
  | inr (done, moves, valid, kept, reconciled) ↦
      let after = ap (λ (m : Result ExecutionGraphError (Unit {0}) × ExecutionGraph). m.1) e in
      (
        subst (Moves node_id running succeeded none g) after moves,
        subst (HasArtifacts artifacts g) after kept,
      )
]
