-- ===== src/Execution/Runs.antt =====
-- What changes when a ready node is run: the node ends, and the other ready nodes stay ready.
use zhongshu.Prelude.{
  String, ℕ, ◌≤◌, ◌<◌, true, false, List, [], ◌∷◌, Option, none, some, ok, if◌then◌else◌, ◌≡◌, refl,
  arith, All-map, ◌==◌,
}
use zhongshu.OrderedMap.{Map, lookup}
use zhongshu.OrderedMap.Laws.{lookup-insert_self}
use zhongshu.OrderedMap.Update.{count, count-replace, replace, insert-replace}
use zhongshu.Execution.Graph.{is_met}
use zhongshu.Execution.Lifecycle.{moved, transition, set_state, is_step, add_artifacts, start_node}
use zhongshu.Execution.Snapshot.{valid_snapshot_transition}
use zhongshu.Execution.Moves.{state_of, state_of-moved}
use zhongshu.Execution.Batch.{transition_pending}
use zhongshu.Execution.Preserved.{HasIds-move}
use zhongshu.Execution.Readiness.{HasIds, IsReady, ready_node_ids_iff, is_met-moved}
use zhongshu.Execution.Settling.{is_pending}
use zhongshu.Execution.Types.{
  is_terminal, ExecutionGraph, ExecutionNode, ExecutionNodeState, ExecutionArtifact, pending,
  running, cancelled,
}

-- How many nodes are pending.
abbrev pub pendings : ExecutionGraph → ℕ
pendings g = count is_pending g.nodes

-- Against the graph before: no more nodes are pending, and other nodes that were ready still are.
pub record After (g : ExecutionGraph) (node_id : String) (h : ExecutionGraph) : Type 0 where
  pub ids : HasIds h
  pub few : pendings h ≤ pendings g
  pub others : (j : String) → node_id == j ≡ false → IsReady g j → IsReady h j

After-trans :
    {g h k : ExecutionGraph} {node_id : String}
    → After g node_id h
    → After h node_id k
    → After g node_id k
After-trans a b = record {
  ids = b.ids;
  few = omega (arith, a.few, b.few);
  others = λ j other ready. b.others j other (a.others j other ready);
}

count-replace-le :
    (k : String) (v w : ExecutionNode) (m : Map ExecutionNode)
    → is_pending w ≡ false
    → count is_pending (replace k w m) ≤ count is_pending m
unfolding count replace
count-replace-le k v w [] h = omega arith
count-replace-le k v w ((j, u) ∷ m) h = ground (arith, count-replace-le k v w m h)

module _ (g : ExecutionGraph) (ids : HasIds g) (node_id : String) (node : ExecutionNode)
    (to : ExecutionNodeState) (reason : Option String) (found : lookup node_id g.nodes ≡ some node)
    (valid : valid_snapshot_transition node.state to ≡ true) where
  leaves_pending : is_pending (record node { state = to }) ≡ false
  unfolding valid_snapshot_transition is_pending
  leaves_pending = ground (arith, valid)

  few_after : pendings (moved node_id node to reason g) ≤ pendings g
  unfolding moved
  few_after =
      rw (insert-replace node_id node (record node { state = to }) g.nodes ids.sorted found)
        (count-replace-le node_id node (record node { state = to }) g.nodes leaves_pending)

  fewer_after : node.state ≡ pending → pendings (moved node_id node to reason g) < pendings g
  unfolding moved is_pending
  fewer_after p =
      rw (insert-replace node_id node (record node { state = to }) g.nodes ids.sorted found) (
        omega (
          arith,
          count-replace is_pending node_id node (record node { state = to }) g.nodes found
              (ground (arith, p)) leaves_pending,
        ))

  others_after :
      (j : String) → node_id == j ≡ false → IsReady g j → IsReady (moved node_id node to reason g) j
  unfolding moved
  others_after j other ready = record {
    is_pending = ground (arith, state_of-moved node_id node to reason g j, other, ready.is_pending);
    met =
        All-map (λ e m into. is_met-moved node_id node to reason g found valid e (m into)) g.edges
          ready.met;
  }

  pub After-move : After g node_id (moved node_id node to reason g)
  After-move = record {
    ids = HasIds-move g node_id node to reason found ids;
    few = few_after;
    others = others_after;
  }

pub After-add_artifacts :
    (g : ExecutionGraph) (node_id : String) (artifacts : List ExecutionArtifact)
    → HasIds g
    → After g node_id (add_artifacts artifacts g)
unfolding add_artifacts state_of is_met
After-add_artifacts g node_id artifacts ids = record {
  ids = record { sorted = ids.sorted; keyed = ids.keyed };
  few = omega arith;
  others = λ j other ready. record { is_pending = ready.is_pending; met = ready.met };
}

pub start_ready :
    (g : ExecutionGraph) (node_id : String)
    → HasIds g
    → IsReady g node_id
    → (n : ExecutionNode) × (lookup node_id g.nodes ≡ some n)
      × (n.state ≡ pending)
      × (start_node node_id g ≡ (ok tt, moved node_id n running none g))
unfolding start_node
start_ready g node_id ids ready =
    let (n, found, is_pending, e) = transition_pending g node_id ready.is_pending in
    (n, found, is_pending, ground (arith, e, (ready_node_ids_iff g node_id ids).1 ready))

-- A running node ends.
ends_running :
    (g : ExecutionGraph) (node_id : String) (n : ExecutionNode) (to : ExecutionNodeState)
    (reason : Option String)
    → lookup node_id g.nodes ≡ some n
    → is_step n.state to ≡ true
    → transition node_id to reason g ≡ (ok tt, moved node_id n to reason g)
unfolding transition set_state
ends_running g node_id n to reason found step = ground (arith, found, step)

-- The node was pending and has ended, the states of the others are as they were, and the others are as
-- ready as they were.
pub record Ran (g : ExecutionGraph) (node_id : String) (h : ExecutionGraph) : Type 0 where
  pub after : After g node_id h
  pub fewer : pendings h < pendings g
  pub to : ExecutionNodeState
  pub ended : is_terminal to ≡ true
  pub states : (j : String) → state_of h j ≡ (if node_id == j then some to else state_of g j)

step_valid :
    (from to : ExecutionNodeState)
    → is_step from to ≡ true
    → valid_snapshot_transition from to ≡ true
unfolding is_step valid_snapshot_transition
step_valid from to h = ground (arith, h)

module _ (g : ExecutionGraph) (ids : HasIds g) (node_id : String) (n : ExecutionNode)
    (found : lookup node_id g.nodes ≡ some n) (is_pending : n.state ≡ pending)
    (to : ExecutionNodeState) (reason : Option String) (step : is_step running to ≡ true) where
  abbrev pub at_work : ExecutionNode
  at_work = record n { state = running }

  abbrev pub started : ExecutionGraph
  started = moved node_id n running none g

  abbrev pub ended_graph : ExecutionGraph
  ended_graph = moved node_id at_work to reason started

  found_at_work : lookup node_id started.nodes ≡ some at_work
  unfolding moved
  found_at_work = lookup-insert_self node_id at_work g.nodes

  start_valid : valid_snapshot_transition n.state running ≡ true
  unfolding valid_snapshot_transition
  start_valid = ground (arith, is_pending)

  pub Ran-ended : Ran g node_id ended_graph
  unfolding is_step
  Ran-ended =
      let a = After-move g ids node_id n running none found start_valid in
      let b =
        After-move started a.ids node_id at_work to reason found_at_work
          (step_valid running to step) in
      record {
        after = After-trans a b;
        fewer =
            omega
              (arith, b.few, fewer_after g ids node_id n running none found start_valid is_pending);
        to = to;
        ended = ground (arith, step);
        states = λ j. ground (
          arith,
          state_of-moved node_id at_work to reason started j,
          state_of-moved node_id n running none g j,
        );
      }

  pub ends : transition node_id to reason started ≡ (ok tt, ended_graph)
  ends = ends_running started node_id at_work to reason found_at_work step

-- A node that is cancelled before it starts.
pub Ran-cancelled :
    (g : ExecutionGraph)
    → HasIds g
    → (node_id : String) (n : ExecutionNode) (reason : String) → lookup node_id g.nodes ≡ some n
    → n.state ≡ pending
    → Ran g node_id (moved node_id n cancelled (some reason) g)
unfolding valid_snapshot_transition
Ran-cancelled g ids node_id n reason found is_pending =
    let valid : valid_snapshot_transition n.state cancelled ≡ true = ground (arith, is_pending) in
    record {
      after = After-move g ids node_id n cancelled (some reason) found valid;
      fewer = fewer_after g ids node_id n cancelled (some reason) found valid is_pending;
      to = cancelled;
      ended = refl;
      states = state_of-moved node_id n cancelled (some reason) g;
    }

pub Ran-add_artifacts :
    (g h : ExecutionGraph) (node_id : String) (artifacts : List ExecutionArtifact)
    → Ran g node_id h
    → Ran g node_id (add_artifacts artifacts h)
unfolding add_artifacts state_of
Ran-add_artifacts g h node_id artifacts ran =
    let b = After-add_artifacts h node_id artifacts ran.after.ids in
    record {
      after = After-trans ran.after b;
      fewer = omega (arith, b.few, ran.fewer);
      to = ran.to;
      ended = ran.ended;
      states = ran.states;
    }
