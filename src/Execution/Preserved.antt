-- ===== src/Execution/Preserved.antt =====
-- What every valid move of a node keeps, every method keeps that does nothing but move nodes.
use zhongshu.Prelude.{
  String, ℕ, zero, suc, length, ◌+◌, true, List, [], ◌∷◌, Option, none, some, inl, inr, ◌++◌,
  Option-cases, ◌≡◌, sym, arith, All, All-map, ◌∙◌, ok, Result-cases, find,
}
use zhongshu.OrderedMap.{lookup, values}
use zhongshu.OrderedMap.Order.{insert-IsSorted, insert-Keyed, key_of_lookup}
use zhongshu.Execution.Method.{for_each, for_each-nil, for_each-cons, bind_keeps}
use zhongshu.Execution.Graph.{ready_node_ids}
use zhongshu.Execution.Snapshot.{valid_snapshot_transition}
use zhongshu.Execution.Lifecycle.{
  moved, is_step, start_node, start_ready_batch, validate_batch, fail_node, is_cancellable,
  cancel_node,
}
use zhongshu.Execution.Settle.{
  settle_loop_done, settle_loop_more, settle_loop, settle_unreachable, skip_node, is_unreachable,
}
use zhongshu.Execution.Moves.{
  transition_cases, set_state_cases, start_node_cases, cancel_node_cases,
}
use zhongshu.Execution.Batch.{
  start, Startable, Startable-moved, transition_pending, validate_batch-Startable, ready_is_pending,
  batch_starts, batch_fails, member-any,
}
use zhongshu.Execution.Readiness.{HasIds, Met, IsReady-sound, is_met-moved}
use zhongshu.Execution.Types.{
  ExecutionGraph, ExecutionNode, ExecutionNodeState, pending, running, failed, skipped, cancelled,
}

pub record IsKeptByMoves {ℓ} (P : ExecutionGraph → Type ℓ) : Type ℓ where
  pub move :
      (g : ExecutionGraph) (node_id : String) (node : ExecutionNode) (to : ExecutionNodeState)
      (reason : Option String)
      → lookup node_id g.nodes ≡ some node
      → valid_snapshot_transition node.state to ≡ true
      → (to ≡ running → All (Met g node_id) g.edges)
      → P g
      → P (moved node_id node to reason g)

pub HasIds-move :
    (g : ExecutionGraph) (node_id : String) (node : ExecutionNode) (to : ExecutionNodeState)
    (reason : Option String)
    → lookup node_id g.nodes ≡ some node
    → HasIds g
    → HasIds (moved node_id node to reason g)
unfolding moved
HasIds-move g node_id node to reason found h = record {
  sorted = insert-IsSorted node_id (record node { state = to }) g.nodes h.sorted;
  keyed =
      insert-Keyed (λ n. n.id) node_id (record node { state = to }) g.nodes
        (sym (key_of_lookup (λ n. n.id) node_id node g.nodes h.keyed found)) h.keyed;
}

-- Every prerequisite of the members of a batch is met.
abbrev BatchMet : ExecutionGraph → List String → Type 0
BatchMet g [] = Unit
BatchMet g (node_id ∷ node_ids) = All (Met g node_id) g.edges × BatchMet g node_ids

BatchMet-start :
    (node_id : String) (node : ExecutionNode) (g : ExecutionGraph) (node_ids : List String)
    → lookup node_id g.nodes ≡ some node
    → node.state ≡ pending
    → BatchMet g node_ids
    → BatchMet (moved node_id node running none g) node_ids
unfolding moved valid_snapshot_transition
BatchMet-start node_id node g [] found is_pending met = tt
BatchMet-start node_id node g (j ∷ js) found is_pending met = (
  All-map (λ e m into. is_met-moved node_id node running none g found (ground arith) e (m into))
      g.edges met.0,
  BatchMet-start node_id node g js found is_pending met.1,
)

BatchMet-of_valid :
    (g : ExecutionGraph)
    → HasIds g
    → (selected node_ids : List String)
    → validate_batch g (ready_node_ids g) selected node_ids ≡ ok tt
    → BatchMet g node_ids
unfolding validate_batch
BatchMet-of_valid g ids selected [] h = tt
BatchMet-of_valid g ids selected (y ∷ ys) h = (
  (IsReady-sound g y ids (sym (member-any y (ready_node_ids g)) ∙ ground arith)).met,
  BatchMet-of_valid g ids (y ∷ selected) ys (ground arith),
)

module _ {ℓ} (P : ExecutionGraph → Type ℓ) (keeps : IsKeptByMoves P) where
  pub start_node_keeps :
      (node_id : String) (g : ExecutionGraph) → HasIds g → P g → P (start_node node_id g).1
  unfolding valid_snapshot_transition
  start_node_keeps node_id g ids p = start_node_cases P node_id g p λ node found is_pending ready.
      keeps.move g node_id node running none found (ground arith)
        (λ _. (IsReady-sound g node_id ids ready).met) p

  pub fail_node_keeps :
      (node_id reason : String) (g : ExecutionGraph) → P g → P (fail_node node_id reason g).1
  unfolding fail_node is_step valid_snapshot_transition
  fail_node_keeps node_id reason g p =
      transition_cases P node_id g p failed (some reason) λ node found step.
        keeps.move g node_id node failed (some reason) found (ground arith) (λ e. cc) p

  pub cancel_node_keeps :
      (node_id reason : String) (g : ExecutionGraph) → P g → P (cancel_node node_id reason g).1
  unfolding is_cancellable valid_snapshot_transition
  cancel_node_keeps node_id reason g p = cancel_node_cases P node_id g p reason λ node found ends.
      keeps.move g node_id node cancelled (some reason) found (ground arith) (λ e. cc) p

  skip_node_keeps : (node_id : String) (g : ExecutionGraph) → P g → P (skip_node node_id g).1
  unfolding skip_node valid_snapshot_transition
  skip_node_keeps node_id g p =
      set_state_cases P node_id g p pending skipped _ λ node found is_pending.
        keeps.move g node_id node skipped _ found (ground arith) (λ e. cc) p

  settle_loop_keeps :
      (fuel : ℕ) (done : List String) (g : ExecutionGraph) → P g → P (settle_loop fuel done g).1
  unfolding settle_loop
  settle_loop_keeps zero done g p = p
  settle_loop_keeps (suc fuel) done g p =
      elim (Option-cases (find (is_unreachable g) (values g.nodes))) [
        | inl e ↦ rw (settle_loop_done fuel done g e) p
        | inr (node, e) ↦ rw (settle_loop_more fuel done g node e) (
            bind_keeps P (skip_node node.id) (λ _. settle_loop fuel (done ++ node.id ∷ [])) g
              (skip_node_keeps node.id g p)
              (λ _ _.
                settle_loop_keeps fuel (done ++ node.id ∷ []) (skip_node node.id g).1
                  (skip_node_keeps node.id g p)))
      ]

  pub settle_unreachable_keeps : (g : ExecutionGraph) → P g → P (settle_unreachable g).1
  unfolding settle_unreachable
  settle_unreachable_keeps g p = settle_loop_keeps (length g.nodes + 1) [] g p

  start_keeps :
      (node_id : String) (node : ExecutionNode) (g : ExecutionGraph)
      → lookup node_id g.nodes ≡ some node
      → node.state ≡ pending
      → All (Met g node_id) g.edges
      → P g
      → P (moved node_id node running none g)
  unfolding valid_snapshot_transition
  start_keeps node_id node g found is_pending met p =
      keeps.move g node_id node running none found (ground arith) (λ _. met) p

  batch_keeps :
      (g : ExecutionGraph) (node_ids : List String)
      → Startable g node_ids
      → BatchMet g node_ids
      → P g
      → P (for_each start node_ids g).1
  batch_keeps g [] free met p = rw (for_each-nil start g) p
  batch_keeps g (node_id ∷ node_ids) free met p =
      let (node, found, is_pending, e) = transition_pending g node_id free.0 in
      let g' : ExecutionGraph = moved node_id node running none g in
      rw (for_each-cons start node_id node_ids g g' e) (
        batch_keeps g' node_ids (Startable-moved node_id node g node_ids free.1 free.2)
          (BatchMet-start node_id node g node_ids found is_pending met.1)
          (start_keeps node_id node g found is_pending met.0 p))

  pub start_ready_batch_keeps :
      (node_ids : List String) (g : ExecutionGraph)
      → HasIds g
      → P g
      → P (start_ready_batch node_ids g).1
  start_ready_batch_keeps node_ids g ids p =
      elim (Result-cases (validate_batch g (ready_node_ids g) [] node_ids)) [
        | inl (done, valid) ↦ rw (batch_starts g node_ids valid) (
            batch_keeps g node_ids
              (validate_batch-Startable g (ready_node_ids g) (ready_is_pending g ids) [] node_ids
                valid)
              (BatchMet-of_valid g ids [] node_ids valid) p)
        | inr (e, invalid) ↦ rw (batch_fails g node_ids e invalid) p
      ]
