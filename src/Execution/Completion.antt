-- ===== src/Execution/Completion.antt =====
-- `complete_node` and `reconcile_node`: what they check, and the graph that they leave.
use zhongshu.Prelude.{
  String, ℕ, true, false, ◌||◌, List, none, some, ◌⊎◌, inl, inr, Result, ok, Result-cases,
  Option-cases, Bool-cases, ◌≡◌, ap, ◌∙◌, arith, is_blank, any,
}
use zhongshu.OrderedMap.{lookup}
use zhongshu.Execution.Method.{Method, ◌>>◌, reads, changes, bind_ok, bind_err}
use zhongshu.Execution.Lifecycle.{
  moved, set_state, transition, is_step, validate_artifacts, add_artifacts, complete_node,
  resolution, check_decision, is_empty, add_reconciliation, resolve_node, reconcile_node,
}
use zhongshu.Execution.Moves.{Refused, set_state_result, transition_result}
use zhongshu.Execution.Types.{
  ExecutionGraph, ExecutionGraphError, ExecutionNode, ExecutionArtifact,
  ExecutionReconciliationDecision, running, succeeded, recovery_required,
  ExecutionNodeState-discrete, empty_reconciliation_reason, missing_reconciliation_evidence,
  missing_node, node_not_recovery_required,
}

running_of : (node : ExecutionNode) → is_step node.state succeeded ≡ true → node.state ≡ running
unfolding is_step
running_of node step = ground (arith, step)

-- The graph after a successful `complete_node`.
abbrev pub completed :
    String → ExecutionNode → List ExecutionArtifact → ExecutionGraph → ExecutionGraph
completed node_id node artifacts g = add_artifacts artifacts (moved node_id node succeeded none g)

module _ (node_id : String) (artifacts : List ExecutionArtifact) (g : ExecutionGraph) where
  -- `complete_node` is refused and changes nothing, or a running node has succeeded and its
  -- artifacts, which name it as their producer and are new, are in the graph.
  pub complete_node_result :
      Refused g (complete_node node_id artifacts g)
      ⊎ ((node : ExecutionNode) × (lookup node_id g.nodes ≡ some node)
          × (node.state ≡ running)
          × (validate_artifacts g node_id artifacts ≡ ok tt)
          × (complete_node node_id artifacts g ≡ (ok tt, completed node_id node artifacts g)))
  unfolding complete_node
  complete_node_result = elim (Result-cases (validate_artifacts g node_id artifacts)) [
    | inr (e, invalid) ↦ inl (e, bind_err check rest g g e (ap (λ r. (r, g)) invalid))
    | inl (done, valid) ↦
        let checked = bind_ok check rest g g tt (ap (λ r. (r, g)) valid) in
        elim (transition_result node_id succeeded none g) [
          | inl (e, refused) ↦ inl (e, checked ∙ bind_err move store g g e refused)
          | inr (node, found, step, done) ↦ inr (
            node,
            found,
            running_of node step,
            valid,
            checked ∙ bind_ok move store g (moved node_id node succeeded none g) tt done,
          )
        ]
  ]
    where
      check : Method (Unit {0})
      check = reads (λ h. validate_artifacts h node_id artifacts)

      move : Method (Unit {0})
      move = transition node_id succeeded none

      store : Unit {0} → Method (Unit {0})
      store _ = changes (add_artifacts artifacts)

      rest : Unit {0} → Method (Unit {0})
      rest _ = move >> changes (add_artifacts artifacts)

-- The graph after a successful `reconcile_node`.
abbrev pub reconciled :
    String
    → ExecutionNode
    → ExecutionReconciliationDecision
    → String
    → List String
    → List ExecutionArtifact
    → ExecutionGraph
    → ExecutionGraph
reconciled node_id node decision reason evidence_refs artifacts g =
    add_reconciliation node_id decision reason evidence_refs g.next_sequence
      (add_artifacts artifacts (moved node_id node (resolution decision) (some reason) g))

module _ (node_id : String) (decision : ExecutionReconciliationDecision) (reason : String)
    (evidence_refs : List String) (artifacts : List ExecutionArtifact) (g : ExecutionGraph) where
  abbrev Resolved :
      ExecutionGraph × ℕ → Result ExecutionGraphError (Unit {0}) × ExecutionGraph → Type 0
  Resolved (h, n) r =
      (node : ExecutionNode) × (lookup node_id h.nodes ≡ some node)
      × (node.state ≡ recovery_required)
      × (check_decision h node_id decision artifacts ≡ ok tt)
      × (r ≡ (
        ok tt,
        add_reconciliation node_id decision reason evidence_refs n
            (add_artifacts artifacts (moved node_id node (resolution decision) (some reason) h)),
      ))

  resolve_node_result :
      (n : ℕ)
      → Refused g (resolve_node node_id decision reason evidence_refs artifacts n g)
        ⊎ Resolved (g, n) (resolve_node node_id decision reason evidence_refs artifacts n g)
  unfolding resolve_node
  resolve_node_result n = elim (Result-cases (check_decision g node_id decision artifacts)) [
    | inr (e, invalid) ↦ inl (e, bind_err check rest g g e (ap (λ r. (r, g)) invalid))
    | inl (done, valid) ↦
        let checked = bind_ok check rest g g tt (ap (λ r. (r, g)) valid) in
        elim (set_state_result node_id (resolution decision) (some reason) g recovery_required) [
          | inl (e, refused) ↦ inl (e, checked ∙ bind_err move store g g e refused)
          | inr (node, found, lost, done) ↦ inr (
            node,
            found,
            lost,
            valid,
            checked
                ∙ bind_ok move store g (moved node_id node (resolution decision) (some reason) g) tt
                    done,
          )
        ]
  ]
    where
      check : Method (Unit {0})
      check = reads (λ h. check_decision h node_id decision artifacts)

      move : Method (Unit {0})
      move = set_state node_id recovery_required (resolution decision) (some reason)

      store : Unit {0} → Method (Unit {0})
      store _ =
          changes (add_artifacts artifacts)
          >> changes (add_reconciliation node_id decision reason evidence_refs n)

      rest : Unit {0} → Method (Unit {0})
      rest _ = move >> store tt

  -- `reconcile_node` is refused and changes nothing, or the reason and the evidence are no blanks,
  -- and a node in the state `recovery_required` has moved to the state that the decision names,
  -- with its artifacts and a reconciliation that cites the move.
  pub reconcile_node_result :
      Refused g (reconcile_node node_id decision reason evidence_refs artifacts g)
      ⊎ ((is_blank reason ≡ false)
          × ((is_empty evidence_refs || any is_blank evidence_refs) ≡ false)
          × (node : ExecutionNode) × (lookup node_id g.nodes ≡ some node)
          × (node.state ≡ recovery_required)
          × (check_decision g node_id decision artifacts ≡ ok tt)
          × (reconcile_node node_id decision reason evidence_refs artifacts g
              ≡ (ok tt, reconciled node_id node decision reason evidence_refs artifacts g)))
  unfolding reconcile_node
  reconcile_node_result = elim (Bool-cases (is_blank reason)) [
    | inl blank ↦ inl (empty_reconciliation_reason, rw (blank, reconcile_node))
    | inr told ↦ elim (Bool-cases (is_empty evidence_refs || any is_blank evidence_refs)) [
      | inl bare ↦ inl (missing_reconciliation_evidence, rw (told, bare, reconcile_node))
      | inr shown ↦ elim (Option-cases (lookup node_id g.nodes)) [
        | inl e ↦ inl (missing_node node_id, rw (told, shown, e, reconcile_node))
        | inr (node, e) ↦ elim (ExecutionNodeState-discrete node.state recovery_required) [
          | no other ↦ inl (node_not_recovery_required node_id, ground (arith, told, shown, e))
          | yes lost ↦ elim (resolve_node_result g.next_sequence) [
            | inl (x, refused) ↦ inl (x, goes node told shown e lost ∙ refused)
            | inr (n, found, l, valid, done) ↦
                inr (told, shown, n, found, l, valid, goes node told shown e lost ∙ done)
          ]
        ]
      ]
    ]
  ]
    where
      goes :
          (node : ExecutionNode)
          → is_blank reason ≡ false
          → (is_empty evidence_refs || any is_blank evidence_refs) ≡ false
          → lookup node_id g.nodes ≡ some node
          → node.state ≡ recovery_required
          → reconcile_node node_id decision reason evidence_refs artifacts g
            ≡ resolve_node node_id decision reason evidence_refs artifacts g.next_sequence g
      goes node told shown e lost = ground (arith, told, shown, e, lost)
