-- ===== src/Execution/Prerequisites.antt =====
-- The order of work: a node runs only after what it waits for has succeeded.
use zhongshu.Prelude.{
  All-zip, All-map, All-append, String, Bool, true, false, List, [], ◌∷◌, Option, none, some, ◌≡◌,
  arith, All,
}
use zhongshu.OrderedMap.{lookup, contains_key}
use zhongshu.Execution.Graph.{add_node, add_edge, has_started, is_met}
use zhongshu.Execution.Snapshot.{valid_snapshot_transition}
use zhongshu.Execution.Lifecycle.{moved}
use zhongshu.Execution.Readiness.{Met}
use zhongshu.Execution.Kept.{IsPreserved}
use zhongshu.Execution.Building.{
  with_node, with_edge, state_of-with_node, add_node_cases, add_edge_cases,
}
use zhongshu.Execution.Moves.{state_of, state_of-moved}
use zhongshu.Execution.Types.{
  ExecutionGraph, ExecutionNode, ExecutionEdge, ExecutionNodeState, running, succeeded, failed,
  recovery_required, finally, edge_kind_eq,
}

-- The node was admitted: it runs, or its run has come to a result or was lost.
abbrev pub has_begun : Option ExecutionNodeState → Bool
has_begun none = false
has_begun (some running) = true
has_begun (some succeeded) = true
has_begun (some failed) = true
has_begun (some recovery_required) = true
has_begun (some _) = false

-- An edge that is no `finally` edge: its target has begun only if its source has succeeded.
abbrev pub Respects : ExecutionGraph → ExecutionEdge → Type 0
Respects g e =
    has_begun (state_of g e.to) ≡ true
    → edge_kind_eq e.kind finally ≡ false
    → state_of g e.from ≡ some succeeded

abbrev pub IsOrdered : ExecutionGraph → Type 0
IsOrdered g = All (Respects g) g.edges

module _ (node_id : String) (node : ExecutionNode) (to : ExecutionNodeState)
    (reason : Option String) (g : ExecutionGraph) (found : lookup node_id g.nodes ≡ some node)
    (valid : valid_snapshot_transition node.state to ≡ true) where
  Respects-moved :
      (e : ExecutionEdge)
      → (to ≡ running → Met g node_id e)
      → Respects g e
      → Respects (moved node_id node to reason g) e
  unfolding valid_snapshot_transition is_met state_of
  Respects-moved e met r =
      rw
        (
          state_of-moved node_id node to reason g e.to,
          state_of-moved node_id node to reason g e.from,
        )
        (λ begun kind. ground arith)

  IsOrdered-moved :
      (to ≡ running → All (Met g node_id) g.edges)
      → IsOrdered g
      → IsOrdered (moved node_id node to reason g)
  unfolding moved
  IsOrdered-moved met h = go g.edges met h
    where
      go :
          (edges : List ExecutionEdge)
          → (to ≡ running → All (Met g node_id) edges)
          → All (Respects g) edges
          → All (Respects (moved node_id node to reason g)) edges
      go [] met h = tt
      go (e ∷ es) met h = (Respects-moved e (λ r. (met r).0) h.0, go es (λ r. (met r).1) h.1)

-- Both ends of an edge are nodes of the graph.
abbrev pub HasEnds : ExecutionGraph → ExecutionEdge → Type 0
HasEnds g e = (contains_key e.from g.nodes ≡ true) × (contains_key e.to g.nodes ≡ true)

pub IsOrdered-IsPreserved : IsPreserved IsOrdered
unfolding state_of
IsOrdered-IsPreserved = record {
  moves = record {
    move = λ g node_id node to reason found valid met h.
        IsOrdered-moved node_id node to reason g found valid met h;
  };
  frame = λ g a r i h. h;
}

-- A new node changes no state that an edge speaks of.
module _ (node : ExecutionNode) (g : ExecutionGraph)
    (is_new : contains_key node.id g.nodes ≡ false) where
  Respects-with_node :
      (e : ExecutionEdge) → HasEnds g e × Respects g e → Respects (with_node node g) e
  unfolding contains_key
  Respects-with_node e (ends, r) =
      ground
        (arith, state_of-with_node node g e.to, state_of-with_node node g e.from, ends.0, ends.1, r)

pub add_node-IsOrdered :
    (node : ExecutionNode) (g : ExecutionGraph)
    → All (HasEnds g) g.edges
    → IsOrdered g
    → IsOrdered (add_node node g).1
add_node-IsOrdered node g wired h = add_node_cases IsOrdered g h node λ may.
    All-map (Respects-with_node node g may.is_new) g.edges
      (All-zip (HasEnds g) (Respects g) g.edges wired h)

-- A new edge leads to a pending node.
pub add_edge-IsOrdered :
    (edge : ExecutionEdge) (g : ExecutionGraph) → IsOrdered g → IsOrdered (add_edge edge g).1
unfolding state_of has_started
add_edge-IsOrdered edge g h = add_edge_cases IsOrdered g h edge λ may.
    All-append (Respects (with_edge edge g)) g.edges (edge ∷ []) h
      (λ begun. absurd (ground (arith, may.not_started)), tt)
