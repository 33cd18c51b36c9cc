-- ===== src/Execution/Readiness.antt =====
-- Which nodes are ready, and that nothing that happens to a graph un-meets a prerequisite.
use zhongshu.Prelude.{
  String, Bool, true, false, Option, none, some, if◌then◌else◌, ◌==◌, ◌≡◌, sym, ap, arith, any, All,
  All-map, ◌↔◌, any-map-keep, any-map-keep_of, all-keep_of, all-keep, ◌∙◌,
}
use zhongshu.OrderedMap.{lookup, values}
use zhongshu.OrderedMap.Order.{IsSorted, Keyed, lookup_of_value, value_of_lookup, key_of_lookup}
use zhongshu.Execution.Graph.{is_met, is_ready, ready_node_ids}
use zhongshu.Execution.Snapshot.{valid_snapshot_transition}
use zhongshu.Execution.Lifecycle.{moved}
use zhongshu.Execution.Moves.{state_of, state_of-moved, state_of_found}
use zhongshu.Execution.Types.{
  ExecutionGraph, ExecutionNode, ExecutionEdge, ExecutionNodeState, pending, finally, edge_kind_eq,
  is_terminal, is_success,
}

-- The nodes of a graph are in the order of their ids, each under its own id.
pub record HasIds (g : ExecutionGraph) : Type 0 where
  pub sorted : IsSorted g.nodes
  pub keyed : Keyed (λ n. n.id) g.nodes

-- An edge into the node `node_id` is met.
abbrev pub Met : ExecutionGraph → String → ExecutionEdge → Type 0
Met g node_id e = e.to ≡ node_id → is_met g e ≡ true

-- The node is pending, and every edge into it is met.
pub record IsReady (g : ExecutionGraph) (node_id : String) : Type 0 where
  pub is_pending : state_of g node_id ≡ some pending
  pub met : All (Met g node_id) g.edges

abbrev state_meets : ExecutionEdge → Option ExecutionNodeState → Bool
state_meets e none = false
state_meets e (some s) = if edge_kind_eq e.kind finally then is_terminal s else is_success s

module _ (g : ExecutionGraph) (node_id : String) (ids : HasIds g) where
  IsReady-of_node :
      (n : ExecutionNode)
      → lookup n.id g.nodes ≡ some n
      → n.id ≡ node_id
      → is_ready g n ≡ true
      → IsReady g node_id
  unfolding is_ready state_of
  IsReady-of_node n found e r = record {
    is_pending = ground (arith, ap (λ i. lookup i g.nodes) e);
    met =
        All-map (λ edge h into. h (ground (arith, into ∙ sym e))) g.edges
          (all-keep (is_met g) (λ edge. edge.to == n.id) g.edges (ground arith));
  }

  pub IsReady-sound : any (λ r. r == node_id) (ready_node_ids g) ≡ true → IsReady g node_id
  unfolding ready_node_ids
  IsReady-sound h =
      let (n, i, e, r) =
        any-map-keep (λ n. n.id) (λ r. r == node_id) (is_ready g) (values g.nodes) h in
      IsReady-of_node n (lookup_of_value (λ n. n.id) n g.nodes ids.sorted ids.keyed i)
        (ground (arith, e)) r

  is_ready_of_IsReady :
      (n : ExecutionNode)
      → lookup node_id g.nodes ≡ some n
      → n.id ≡ node_id
      → IsReady g node_id
      → is_ready g n ≡ true
  unfolding is_ready state_of
  is_ready_of_IsReady n found e h = ground (
    arith,
    h.is_pending,
    all-keep_of (is_met g) (λ edge. edge.to == n.id) g.edges
        (All-map (λ edge met into. met (ground arith)) g.edges h.met),
  )

  node_of_IsReady : IsReady g node_id → (n : ExecutionNode) × (lookup node_id g.nodes ≡ some n)
  unfolding state_of
  node_of_IsReady h = ground (arith, h.is_pending)

  ready_complete : IsReady g node_id → any (λ r. r == node_id) (ready_node_ids g) ≡ true
  unfolding ready_node_ids
  ready_complete h =
      let (n, found) = node_of_IsReady h in
      let e = key_of_lookup (λ n. n.id) node_id n g.nodes ids.keyed found in
      any-map-keep_of (λ n. n.id) (λ r. r == node_id) (is_ready g) (values g.nodes)
        (value_of_lookup node_id n g.nodes found) (ground (arith, e))
        (is_ready_of_IsReady n found e h)

-- In a graph whose nodes are in the order of their ids, each under its own, `ready_node_ids` lists
-- exactly the nodes that are pending and all of whose incoming edges are met.
pub ready_node_ids_iff :
    (g : ExecutionGraph) (node_id : String)
    → HasIds g
    → (any (λ r. r == node_id) (ready_node_ids g) ≡ true) ↔ IsReady g node_id
ready_node_ids_iff g node_id ids = (IsReady-sound g node_id ids, ready_complete g node_id ids)

module _ (node_id : String) (node : ExecutionNode) (to : ExecutionNodeState)
    (reason : Option String) (g : ExecutionGraph) (found : lookup node_id g.nodes ≡ some node)
    (valid : valid_snapshot_transition node.state to ≡ true) where
  is_met_state :
      (h : ExecutionGraph) (e : ExecutionEdge) → is_met h e ≡ state_meets e (state_of h e.from)
  unfolding is_met state_of
  is_met_state h e = ground arith

  -- A prerequisite that is met stays met.
  pub is_met-moved :
      (e : ExecutionEdge) → is_met g e ≡ true → is_met (moved node_id node to reason g) e ≡ true
  unfolding valid_snapshot_transition
  is_met-moved e met =
      let old = is_met_state g e in
      rw
        (
          is_met_state (moved node_id node to reason g) e,
          state_of-moved node_id node to reason g e.from,
        )
        (ground (arith, old, state_of_found g node_id node found))
