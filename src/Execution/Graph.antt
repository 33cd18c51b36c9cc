-- ===== src/Execution/Graph.antt =====
-- zhongshu-core/src/agent/execution_graph.rs: building a graph, and the queries on it.
use zhongshu.Prelude.{
  String, ℕ, zero, suc, ◌+◌, Bool, true, false, not, ◌&&◌, ◌||◌, List, [], ◌∷◌, ◌++◌, map, Option,
  none, some, Result, ok, err, ◌>>◌, ensure, if◌then◌else◌, ◌==◌, is_blank, any, all, keep, length,
}
use zhongshu.Prelude.Int.{is_nonpositive}
use zhongshu.OrderedMap.{lookup, insert, contains_key, values, insert_all}
use zhongshu.Execution.Method.{Method}
use zhongshu.Execution.Types.{
  ExecutionGraph, ExecutionGraphError, ExecutionNode, ExecutionEdge, ExecutionEffectIntent,
  ExecutionEffectExpectation, workspace_file, file_claim, pending, apply, finally, state_eq,
  kind_eq, edge_kind_eq, is_terminal, is_success, empty_task_id, empty_node_id, duplicate_node,
  missing_node, multiple_apply_nodes, target_already_started, duplicate_edge, cycle,
  invalid_snapshot, invalid_expectation, effect_intent_of_other_node,
  effect_intent_node_already_started, empty_effect_intent_id, duplicate_effect_intent,
}

-- `BTreeSet<String>`, of which the source asks membership only.
unfoldable pub member : String → List String → Bool
member a [] = false
member a (x ∷ xs) = x == a || member a xs

abbrev pub empty_graph : String → ExecutionGraph
empty_graph task_id = record {
  task_id = task_id;
  nodes = [];
  edges = [];
  artifacts = [];
  transitions = [];
  reconciliations = [];
  effect_intents = [];
  next_sequence = 1;
}

-- `ExecutionGraph::new`.
unfoldable pub new : String → Result ExecutionGraphError ExecutionGraph
new task_id = if is_blank task_id then err empty_task_id else ok (empty_graph task_id)

unfoldable pub is_apply : ExecutionNode → Bool
is_apply node = kind_eq node.kind apply

unfoldable pub add_node : ExecutionNode → Method (Unit {0})
add_node node g =
    if is_blank node.id
    then (err empty_node_id, g)
    else if contains_key node.id g.nodes
    then (err (duplicate_node node.id), g)
    else if is_apply node && any is_apply (values g.nodes)
    then (err multiple_apply_nodes, g)
    else (ok tt, record g { nodes = insert node.id node g.nodes })

-- The queue of `has_path` after the edges that leave `current` are pushed.
unfoldable pub targets : String → List ExecutionEdge → List String
targets current edges = map (λ e. e.to) (keep (λ e. e.from == current) edges)

-- The loop of `has_path`; `none` when the fuel runs out.
unfoldable pub path_loop : ℕ → List ExecutionEdge → String → List String → List String → Option Bool
path_loop zero edges to queue visited = none
path_loop (suc fuel) edges to [] visited = some false
path_loop (suc fuel) edges to (current ∷ queue) visited =
    let skip = path_loop fuel edges to queue visited in
    let expand = path_loop fuel edges to (queue ++ targets current edges) (current ∷ visited) in
    if current == to then some true else if member current visited then skip else expand

unfoldable pub found : Option Bool → Bool
found none = false
found (some b) = b

-- Each round takes a name off the queue, and an edge is pushed once: two rounds more than there are
-- edges are enough.
unfoldable pub path_exists : List ExecutionEdge → String → String → Bool
unfolding found
path_exists edges from to = found (path_loop (length edges + 2) edges to (from ∷ []) [])

unfoldable pub has_path : ExecutionGraph → String → String → Bool
has_path g from to = path_exists g.edges from to

unfoldable pub has_started : Option ExecutionNode → Bool
has_started none = false
has_started (some node) = not (state_eq node.state pending)

unfoldable pub add_edge : ExecutionEdge → Method (Unit {0})
add_edge edge g =
    if not (contains_key edge.from g.nodes)
    then (err (missing_node edge.from), g)
    else if not (contains_key edge.to g.nodes)
    then (err (missing_node edge.to), g)
    else if has_started (lookup edge.to g.nodes)
    then (err (target_already_started edge.to), g)
    else if any (λ e. e.from == edge.from && e.to == edge.to) g.edges
    then (err (duplicate_edge edge.from edge.to), g)
    else if edge.from == edge.to || has_path g edge.to edge.from
    then (err (cycle edge.from edge.to), g)
    else (ok tt, record g { edges = g.edges ++ edge ∷ [] })

unfoldable pub is_invalid_expectation : ExecutionEffectExpectation → Bool
is_invalid_expectation (workspace_file path before_hash after_hash existed_before) =
    is_blank path || is_blank before_hash || is_blank after_hash
is_invalid_expectation (file_claim agent_id file_path operation conv_id expected_active) =
    is_blank agent_id || is_blank file_path || is_blank operation || is_nonpositive conv_id

unfoldable pub validate_effect_expectation :
    ExecutionEffectExpectation → Result ExecutionGraphError (Unit {0})
validate_effect_expectation expectation =
    if is_invalid_expectation expectation then err (invalid_snapshot invalid_expectation) else ok tt

-- The loop of `record_effect_intents` that checks; `ids` are the ids seen in this call.
unfoldable pub check_intents :
    ExecutionGraph
    → String
    → List String
    → List ExecutionEffectIntent
    → Result ExecutionGraphError (Unit {0})
check_intents g node_id ids [] = ok tt
check_intents g node_id ids (intent ∷ intents) = do
  ensure (not (is_blank intent.id)) empty_effect_intent_id
  ensure (intent.node_id == node_id)
      (invalid_snapshot (effect_intent_of_other_node intent.id intent.node_id node_id))
  ensure (not (member intent.id ids || contains_key intent.id g.effect_intents))
      (duplicate_effect_intent intent.id)
  validate_effect_expectation intent.expectation
  check_intents g node_id (intent.id ∷ ids) intents

unfoldable pub record_effect_intents : String → List ExecutionEffectIntent → Method (Unit {0})
record_effect_intents node_id intents g = elim (lookup node_id g.nodes) [
  | none ↦ (err (missing_node node_id), g)
  | some node ↦
      if not (state_eq node.state pending)
      then (err (effect_intent_node_already_started node_id), g)
      else elim (check_intents g node_id [] intents) [
        | err e ↦ (err e, g)
        | ok _ ↦
            (ok tt, record g { effect_intents = insert_all (λ i. i.id) g.effect_intents intents })
      ]
]

unfoldable pub effect_intents_for : ExecutionGraph → String → List ExecutionEffectIntent
effect_intents_for g node_id = keep (λ i. i.node_id == node_id) (values g.effect_intents)

-- A prerequisite is met: for a `finally` edge its source has ended, for another it has succeeded.
unfoldable pub is_met : ExecutionGraph → ExecutionEdge → Bool
is_met g edge = elim (lookup edge.from g.nodes) [
  | none ↦ false
  | some source ↦
      if edge_kind_eq edge.kind finally then is_terminal source.state else is_success source.state
]

unfoldable pub is_ready : ExecutionGraph → ExecutionNode → Bool
is_ready g node =
    state_eq node.state pending && all (is_met g) (keep (λ e. e.to == node.id) g.edges)

unfoldable pub ready_node_ids : ExecutionGraph → List String
ready_node_ids g = map (λ n. n.id) (keep (is_ready g) (values g.nodes))

-- `ExecutionGraph::node`.
unfoldable pub node : ExecutionGraph → String → Option ExecutionNode
node g node_id = lookup node_id g.nodes
