-- ===== src/Execution/Settle.antt =====
-- zhongshu-core/src/agent/execution_graph.rs: skipping what can no longer run.
use zhongshu.Prelude.{
  String, ℕ, zero, suc, ◌+◌, Bool, false, not, ◌&&◌, List, [], ◌∷◌, ◌++◌, ◌≡◌, ap, none, some, ok,
  ◌==◌, any, keep, find, length,
}
use zhongshu.OrderedMap.{lookup, values}
use zhongshu.Execution.Method.{Method, ◌>>◌}
use zhongshu.Execution.Lifecycle.{set_state}
use zhongshu.Execution.Types.{
  ExecutionGraph, ExecutionNode, ExecutionEdge, pending, skipped, recovery_required, finally,
  state_eq, edge_kind_eq, is_terminal, is_success,
}

-- The source of a prerequisite has ended, and not in a way that can still turn out well.
unfoldable pub is_lost : ExecutionGraph → ExecutionEdge → Bool
is_lost g edge = elim (lookup edge.from g.nodes) [
  | none ↦ false
  | some source ↦
      is_terminal source.state
      && not (state_eq source.state recovery_required)
      && not (is_success source.state)
]

unfoldable pub is_unreachable : ExecutionGraph → ExecutionNode → Bool
is_unreachable g node =
    state_eq node.state pending
    && any (λ e. not (edge_kind_eq e.kind finally) && is_lost g e)
        (keep (λ e. e.to == node.id) g.edges)

unfoldable pub skip_node : String → Method (Unit {0})
skip_node node_id = set_state node_id pending skipped (some "a prerequisite did not succeed")

-- The loop of `settle_unreachable`.
unfoldable pub settle_loop : ℕ → List String → Method (List String)
settle_loop zero skipped_nodes g = (ok skipped_nodes, g)
settle_loop (suc fuel) skipped_nodes g = elim (find (is_unreachable g) (values g.nodes)) [
  | none ↦ (ok skipped_nodes, g)
  | some node ↦ (skip_node node.id >> settle_loop fuel (skipped_nodes ++ node.id ∷ [])) g
]

-- Each round skips a pending node, so one round more than there are nodes is enough.
unfoldable pub settle_unreachable : Method (List String)
settle_unreachable g = settle_loop (length g.nodes + 1) [] g

module _ (fuel : ℕ) (skipped_nodes : List String) (g : ExecutionGraph) where
  pub settle_loop_done :
      find (is_unreachable g) (values g.nodes) ≡ none
      → settle_loop (suc fuel) skipped_nodes g ≡ (ok skipped_nodes, g)
  unfolding settle_loop
  settle_loop_done e =
      ap
        (elim [
          | none ↦ (ok skipped_nodes, g)
          | some node ↦ (skip_node node.id >> settle_loop fuel (skipped_nodes ++ node.id ∷ [])) g
        ])
        e

  pub settle_loop_more :
      (node : ExecutionNode)
      → find (is_unreachable g) (values g.nodes) ≡ some node
      → settle_loop (suc fuel) skipped_nodes g
        ≡ (skip_node node.id >> settle_loop fuel (skipped_nodes ++ node.id ∷ [])) g
  unfolding settle_loop
  settle_loop_more node e =
      ap
        (elim [
          | none ↦ (ok skipped_nodes, g)
          | some node ↦ (skip_node node.id >> settle_loop fuel (skipped_nodes ++ node.id ∷ [])) g
        ])
        e
