-- ===== src/Execution/Moves.antt =====
-- What one move of a node changes, and the case rules of the methods that make such a move.
use zhongshu.Prelude.{
  ◌⊎◌, Result, ok, err, String, true, Option, none, some, inl, inr, Option-cases, Bool-cases,
  if◌then◌else◌, ◌==◌, ◌≡◌, ap, arith, any,
}
use zhongshu.OrderedMap.{lookup}
use zhongshu.OrderedMap.Laws.{lookup-insert}
use zhongshu.Execution.Graph.{ready_node_ids}
use zhongshu.Execution.Lifecycle.{
  moved, set_state, is_step, transition, start_node, is_cancellable, cancel_node,
}
use zhongshu.Execution.Types.{
  ExecutionGraphError, missing_node, invalid_transition, ExecutionNodeState-discrete,
  ExecutionGraph, ExecutionNode, ExecutionNodeState, pending, running, cancelled,
}

abbrev pub state_in : Option ExecutionNode → Option ExecutionNodeState
state_in none = none
state_in (some node) = some node.state

-- The state of a node, by its id.
unfoldable pub state_of : ExecutionGraph → String → Option ExecutionNodeState
state_of g node_id = state_in (lookup node_id g.nodes)

pub state_of_found :
    (g : ExecutionGraph) (node_id : String) (node : ExecutionNode)
    → lookup node_id g.nodes ≡ some node
    → state_of g node_id ≡ some node.state
unfolding state_of
state_of_found g node_id node found = ap state_in found

module _ (node_id : String) (node : ExecutionNode) (to : ExecutionNodeState)
    (reason : Option String) (g : ExecutionGraph) where
  pub state_of-moved :
      (j : String)
      → state_of (moved node_id node to reason g) j
        ≡ (if node_id == j then some to else state_of g j)
  unfolding state_of moved
  state_of-moved j = ground (arith, lookup-insert node_id j (record node { state = to }) g.nodes)

-- `set_state` writes only if the node is there and in the state it is said to be in.
module _ {ℓ} (P : ExecutionGraph → Type ℓ) (node_id : String) (g : ExecutionGraph)
    (same : P g) where
  pub set_state_cases :
      (from to : ExecutionNodeState) (reason : Option String)
      → ((node : ExecutionNode)
          → lookup node_id g.nodes ≡ some node
          → node.state ≡ from
          → P (moved node_id node to reason g))
      → P (set_state node_id from to reason g).1
  unfolding set_state
  set_state_cases from to reason h = elim (Option-cases (lookup node_id g.nodes)) [
    | inl e ↦ rw (e, set_state) same
    | inr (node, e) ↦ ground (arith, h node)
  ]

  pub transition_cases :
      (to : ExecutionNodeState) (reason : Option String)
      → ((node : ExecutionNode)
          → lookup node_id g.nodes ≡ some node
          → is_step node.state to ≡ true
          → P (moved node_id node to reason g))
      → P (transition node_id to reason g).1
  unfolding transition set_state
  transition_cases to reason h = elim (Option-cases (lookup node_id g.nodes)) [
    | inl e ↦ rw (e, transition) same
    | inr (node, e) ↦ ground (arith, h node)
  ]

  pub cancel_node_cases :
      (reason : String)
      → ((node : ExecutionNode)
          → lookup node_id g.nodes ≡ some node
          → is_cancellable node.state ≡ true
          → P (moved node_id node cancelled (some reason) g))
      → P (cancel_node node_id reason g).1
  unfolding cancel_node set_state
  cancel_node_cases reason h = elim (Option-cases (lookup node_id g.nodes)) [
    | inl e ↦ rw (e, cancel_node) same
    | inr (node, e) ↦ ground (arith, h node)
  ]

  pub start_node_cases :
      ((node : ExecutionNode)
        → lookup node_id g.nodes ≡ some node
        → node.state ≡ pending
        → any (λ ready. ready == node_id) (ready_node_ids g) ≡ true
        → P (moved node_id node running none g))
      → P (start_node node_id g).1
  unfolding start_node is_step
  start_node_cases h = elim (Bool-cases (any (λ ready. ready == node_id) (ready_node_ids g))) [
    | inl e ↦
        rw (e, start_node)
          (transition_cases running none λ node found step. h node found (ground arith) e)
    | inr e ↦ rw (e, start_node) same
  ]

-- A call that is refused leaves the graph as it was.
abbrev pub Refused {ℓ} :
    {A : Type ℓ} → ExecutionGraph → Result ExecutionGraphError A × ExecutionGraph → Type ℓ
Refused g r = (e : ExecutionGraphError) × (r ≡ (err e, g))

module _ (node_id : String) (to : ExecutionNodeState) (reason : Option String)
    (g : ExecutionGraph) where
  pub set_state_result :
      (from : ExecutionNodeState)
      → Refused g (set_state node_id from to reason g)
        ⊎ ((node : ExecutionNode) × (lookup node_id g.nodes ≡ some node)
            × (node.state ≡ from)
            × (set_state node_id from to reason g ≡ (ok tt, moved node_id node to reason g)))
  unfolding set_state
  set_state_result from = elim (Option-cases (lookup node_id g.nodes)) [
    | inl e ↦ inl (missing_node node_id, rw (e, set_state))
    | inr (node, e) ↦ elim (ExecutionNodeState-discrete node.state from) [
      | yes same ↦ inr (node, e, same, ground (arith, e))
      | no other ↦ inl (invalid_transition node_id node.state to, ground (arith, e))
    ]
  ]

  pub transition_result :
      Refused g (transition node_id to reason g)
      ⊎ ((node : ExecutionNode) × (lookup node_id g.nodes ≡ some node)
          × (is_step node.state to ≡ true)
          × (transition node_id to reason g ≡ (ok tt, moved node_id node to reason g)))
  unfolding transition set_state
  transition_result = elim (Option-cases (lookup node_id g.nodes)) [
    | inl e ↦ inl (missing_node node_id, rw (e, transition))
    | inr (node, e) ↦ elim (Bool-cases (is_step node.state to)) [
      | inl step ↦ inr (node, e, step, ground (arith, e))
      | inr bad ↦ inl (invalid_transition node_id node.state to, ground (arith, e))
    ]
  ]
