-- ===== src/Execution/Safety.antt =====
-- What holds of every graph that calls can make from a new one, and of every node in it.
use zhongshu.Prelude.{
  String, Bool, true, false, [], ◌∷◌, Option, none, some, ◌≡◌, refl, subst, arith, All, All-map,
  All-append, ok,
}
use zhongshu.OrderedMap.{contains_key, lookup}
use zhongshu.OrderedMap.Laws.{contains_key-insert}
use zhongshu.OrderedMap.Order.{insert-IsSorted, insert-Keyed}
use zhongshu.Execution.Graph.{new, empty_graph, add_node, add_edge}
use zhongshu.Execution.Lifecycle.{moved}
use zhongshu.Execution.Moves.{state_of, state_of-moved, state_of_found}
use zhongshu.Execution.Building.{with_edge, state_of-with_node, add_node_cases, add_edge_cases}
use zhongshu.Execution.Readiness.{HasIds}
use zhongshu.Execution.Snapshot.{valid_snapshot_transition}
use zhongshu.Execution.Kept.{IsPreserved, HasIds-IsPreserved}
use zhongshu.Execution.Prerequisites.{
  HasEnds, IsOrdered, IsOrdered-IsPreserved, add_node-IsOrdered, add_edge-IsOrdered,
}
use zhongshu.Execution.Steps.{Step, Steps, here, next, Step_keeps}
use zhongshu.Execution.Types.{
  ExecutionGraph, ExecutionNode, ExecutionEdge, ExecutionNodeState, succeeded, failed, skipped,
  cancelled,
}

-- Both ends of every edge are nodes.
abbrev pub IsWired : ExecutionGraph → Type 0
IsWired g = All (HasEnds g) g.edges

IsWired-move :
    (g : ExecutionGraph) (node_id : String) (node : ExecutionNode) (to : ExecutionNodeState)
    (reason : Option String)
    → IsWired g
    → IsWired (moved node_id node to reason g)
unfolding moved
IsWired-move g node_id node to reason h =
    All-map
      (λ e ends. (
        ground (
          arith,
          ends.0,
          contains_key-insert node_id e.from (record node { state = to }) g.nodes,
        ),
        ground
            (arith, ends.1, contains_key-insert node_id e.to (record node { state = to }) g.nodes),
      ))
      g.edges h

IsWired-IsPreserved : IsPreserved IsWired
IsWired-IsPreserved = record {
  moves = record {
    move = λ g node_id node to reason found valid met h. IsWired-move g node_id node to reason h;
  };
  frame = λ g a r i h. h;
}

add_node-IsWired :
    (node : ExecutionNode) (g : ExecutionGraph) → IsWired g → IsWired (add_node node g).1
add_node-IsWired node g h = add_node_cases IsWired g h node λ may.
    All-map
      (λ e ends. (
        ground (arith, ends.0, contains_key-insert node.id e.from node g.nodes),
        ground (arith, ends.1, contains_key-insert node.id e.to node g.nodes),
      ))
      g.edges h

add_edge-IsWired :
    (edge : ExecutionEdge) (g : ExecutionGraph) → IsWired g → IsWired (add_edge edge g).1
add_edge-IsWired edge g h = add_edge_cases IsWired g h edge λ may.
    All-append (HasEnds (with_edge edge g)) g.edges (edge ∷ []) h ((may.has_from, may.has_to), tt)

pub add_node-HasIds :
    (node : ExecutionNode) (g : ExecutionGraph) → HasIds g → HasIds (add_node node g).1
add_node-HasIds node g h = add_node_cases HasIds g h node λ may. record {
  sorted = insert-IsSorted node.id node g.nodes h.sorted;
  keyed = insert-Keyed (λ n. n.id) node.id node g.nodes refl h.keyed;
}

add_edge-HasIds :
    (edge : ExecutionEdge) (g : ExecutionGraph) → HasIds g → HasIds (add_edge edge g).1
add_edge-HasIds edge g h =
    add_edge_cases HasIds g h edge λ may. record { sorted = h.sorted; keyed = h.keyed }

pub Step-HasIds : {g h : ExecutionGraph} → Step g h → HasIds g → HasIds h
Step-HasIds s ids =
    Step_keeps HasIds HasIds-IsPreserved (λ node g _ _ p. add_node-HasIds node g p)
      (λ edge g _ p. add_edge-HasIds edge g p) s ids ids

pub Steps-HasIds : {g h : ExecutionGraph} → Steps g h → HasIds g → HasIds h
Steps-HasIds here ids = ids
Steps-HasIds (next r s) ids = Step-HasIds s (Steps-HasIds r ids)

pub record IsSafe (g : ExecutionGraph) : Type 0 where
  pub ids : HasIds g
  pub wired : IsWired g
  pub ordered : IsOrdered g

IsSafe-IsPreserved : IsPreserved IsSafe
IsSafe-IsPreserved = record {
  moves = record {
    move = λ g node_id node to reason found valid met h. record {
      ids = HasIds-IsPreserved.moves.move g node_id node to reason found valid met h.ids;
      wired = IsWired-move g node_id node to reason h.wired;
      ordered = IsOrdered-IsPreserved.moves.move g node_id node to reason found valid met h.ordered;
    };
  };
  frame = λ g a r i h. record {
    ids = HasIds-IsPreserved.frame g a r i h.ids;
    wired = h.wired;
    ordered = IsOrdered-IsPreserved.frame g a r i h.ordered;
  };
}

Step-IsSafe : {g h : ExecutionGraph} → Step g h → IsSafe g → IsSafe h
Step-IsSafe s p =
    Step_keeps IsSafe IsSafe-IsPreserved
      (λ node g _ _ q. record {
        ids = add_node-HasIds node g q.ids;
        wired = add_node-IsWired node g q.wired;
        ordered = add_node-IsOrdered node g q.wired q.ordered;
      })
      (λ edge g _ q. record {
        ids = add_edge-HasIds edge g q.ids;
        wired = add_edge-IsWired edge g q.wired;
        ordered = add_edge-IsOrdered edge g q.ordered;
      })
      s p.ids p

pub Steps-keep_IsSafe : {g h : ExecutionGraph} → Steps g h → IsSafe g → IsSafe h
Steps-keep_IsSafe here p = p
Steps-keep_IsSafe (next r s) p = Step-IsSafe s (Steps-keep_IsSafe r p)

pub new-eq : (task_id : String) (g : ExecutionGraph) → new task_id ≡ ok g → empty_graph task_id ≡ g
unfolding new
new-eq task_id g e = ground (arith, e)

empty-IsSafe : (task_id : String) → IsSafe (empty_graph task_id)
empty-IsSafe task_id = record { ids = record { sorted = tt; keyed = tt }; wired = tt; ordered = tt }

-- After any calls on a new graph, nodes being added as pending: the nodes stand in the order of
-- their ids, each under its own id, both ends of every edge are nodes, and a node has begun only if
-- every node that it waits for, by an edge that is no `finally` edge, has succeeded.
pub Steps-IsSafe :
    (task_id : String) {g h : ExecutionGraph} → new task_id ≡ ok g → Steps g h → IsSafe h
Steps-IsSafe task_id {g} e s =
    Steps-keep_IsSafe s (subst IsSafe (new-eq task_id g e) (empty-IsSafe task_id))

-- A state that no reconciliation can change.
abbrev pub is_final : Option ExecutionNodeState → Bool
is_final none = false
is_final (some succeeded) = true
is_final (some failed) = true
is_final (some skipped) = true
is_final (some cancelled) = true
is_final (some _) = false

-- Every node that is final in `g` is in the same state in `h`.
abbrev pub KeepsFinal : ExecutionGraph → ExecutionGraph → Type 0
KeepsFinal g h = (j : String) → is_final (state_of g j) ≡ true → state_of h j ≡ state_of g j

module _ (g₀ : ExecutionGraph) where
  KeepsFinal-move :
      (g : ExecutionGraph) (node_id : String) (node : ExecutionNode) (to : ExecutionNodeState)
      (reason : Option String)
      → lookup node_id g.nodes ≡ some node
      → valid_snapshot_transition node.state to ≡ true
      → KeepsFinal g₀ g
      → KeepsFinal g₀ (moved node_id node to reason g)
  unfolding valid_snapshot_transition
  KeepsFinal-move g node_id node to reason found valid h j f =
      ground (
        arith,
        h j f,
        state_of-moved node_id node to reason g j,
        state_of_found g node_id node found,
      )

  KeepsFinal-IsPreserved : IsPreserved (KeepsFinal g₀)
  unfolding state_of
  KeepsFinal-IsPreserved = record {
    moves = record {
      move = λ g node_id node to reason found valid met h.
          KeepsFinal-move g node_id node to reason found valid h;
    };
    frame = λ g a r i h. h;
  }

  KeepsFinal-add_node :
      (node : ExecutionNode) (g : ExecutionGraph)
      → KeepsFinal g₀ g
      → KeepsFinal g₀ (add_node node g).1
  unfolding state_of contains_key
  KeepsFinal-add_node node g h =
      add_node_cases (KeepsFinal g₀) g h node
        λ may j f. ground (arith, h j f, may.is_new, state_of-with_node node g j)

  KeepsFinal-add_edge :
      (edge : ExecutionEdge) (g : ExecutionGraph)
      → KeepsFinal g₀ g
      → KeepsFinal g₀ (add_edge edge g).1
  unfolding state_of
  KeepsFinal-add_edge edge g h = add_edge_cases (KeepsFinal g₀) g h edge λ may. h

-- In a graph whose nodes are in the order of their ids, each under its own, no calls, nodes being
-- added as pending, change the state of a node that has succeeded, failed, been skipped or been
-- cancelled.
pub Steps-KeepsFinal : {g h : ExecutionGraph} → HasIds g → Steps g h → KeepsFinal g h
Steps-KeepsFinal ids here = λ j f. refl
Steps-KeepsFinal {g} ids (next r s) =
    Step_keeps (KeepsFinal g) (KeepsFinal-IsPreserved g)
      (λ node k _ _. KeepsFinal-add_node g node k) (λ edge k _. KeepsFinal-add_edge g edge k) s
      (Steps-HasIds r ids) (Steps-KeepsFinal ids r)
