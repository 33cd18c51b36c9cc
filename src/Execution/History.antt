-- ===== src/Execution/History.antt =====
-- The transitions of a graph are the whole history of its nodes: replaying them gives their states.
use zhongshu.Prelude.{
  String, ℕ, ◌+◌, true, false, List, [], ◌∷◌, Option, some, ok, fold_result, fold_result-snoc,
  fold_result-first, fold_result-cons, ◌≡◌, refl, sym, ap, ◌∙◌, subst, arith,
}
use zhongshu.OrderedMap.{Map, lookup, insert, keys, contains_key}
use zhongshu.OrderedMap.Update.{insert-replace, keys-replace}
use zhongshu.OrderedMap.Laws.{lookup-insert, contains_key-insert}
use zhongshu.OrderedMap.Project.{project, lookup-project, project-insert, insert_comm}
use zhongshu.Execution.Graph.{add_node, add_edge, new, empty_graph}
use zhongshu.Execution.Kept.{IsPreserved, HasIds-IsPreserved}
use zhongshu.Execution.Steps.{Steps, here as start, next, Step_keeps}
use zhongshu.Execution.Safety.{add_node-HasIds, new-eq}
use zhongshu.Execution.Lifecycle.{moved}
use zhongshu.Execution.Snapshot.{valid_snapshot_transition, Replay, replay_one, all_pending}
use zhongshu.Execution.Building.{add_node_cases, add_edge_cases}
use zhongshu.Execution.Readiness.{HasIds}
use zhongshu.Execution.Types.{
  ExecutionGraph, ExecutionNode, ExecutionEdge, ExecutionNodeState, ExecutionTransition, pending,
}

-- The states of the nodes.
abbrev pub states : Map ExecutionNode → Map ExecutionNodeState
states = project (λ n. n.state)

-- Every node pending.
abbrev pub unstarted : Map ExecutionNode → Map ExecutionNodeState
unstarted = project (λ _. pending)

pub all_pending-keys {ℓ} :
    {V : Type ℓ} (m : Map V) → all_pending (keys m) ≡ project (λ _. pending) m
unfolding all_pending keys project
all_pending-keys [] = refl
all_pending-keys ((k, v) ∷ m) = ap (◌∷◌ (k, pending)) (all_pending-keys m)

abbrev pub replayed : Map ExecutionNodeState → ℕ → Replay
replayed s n = record { states = s; expected = n }

abbrev pub IsRecorded : ExecutionGraph → Type 0
IsRecorded g =
    fold_result replay_one (replayed (unstarted g.nodes) 1) g.transitions
    ≡ ok (replayed (states g.nodes) g.next_sequence)

module _ (g : ExecutionGraph) (node_id : String) (node : ExecutionNode) (to : ExecutionNodeState)
    (reason : Option String) (ids : HasIds g) (found : lookup node_id g.nodes ≡ some node)
    (valid : valid_snapshot_transition node.state to ≡ true) where
  abbrev last : ExecutionTransition
  last = record {
    sequence = g.next_sequence;
    node_id = node_id;
    from = node.state;
    to = to;
    reason = reason;
  }

  replay_last :
      replay_one (replayed (states g.nodes) g.next_sequence) last
      ≡ ok (replayed (insert node_id to (states g.nodes)) (g.next_sequence + 1))
  unfolding replay_one
  replay_last = ground (arith, found, valid, lookup-project (λ n. n.state) node_id g.nodes)

  unstarted-moved : unstarted (moved node_id node to reason g).nodes ≡ unstarted g.nodes
  unfolding moved
  unstarted-moved =
      sym (all_pending-keys (moved node_id node to reason g).nodes)
      ∙ ap all_pending (
          ap keys
            (insert-replace node_id node (record node { state = to }) g.nodes ids.sorted found)
          ∙ keys-replace node_id (record node { state = to }) g.nodes)
      ∙ all_pending-keys g.nodes

  IsRecorded-moved : IsRecorded g → IsRecorded (moved node_id node to reason g)
  unfolding moved
  IsRecorded-moved h = rw (unstarted-moved) (
      fold_result-snoc replay_one (replayed (unstarted g.nodes) 1)
        (replayed (states g.nodes) g.next_sequence) g.transitions last h
      ∙ replay_last
      ∙ ap (λ s. ok (replayed s (g.next_sequence + 1)))
          (sym (project-insert (λ n. n.state) node_id (record node { state = to }) g.nodes)))

-- A key that no transition names makes no difference to a replay.
module _ (node_id : String) (s : ExecutionNodeState) where
  replay_one_beside :
      (r r' : Replay) (t : ExecutionTransition)
      → replay_one r t ≡ ok r'
      → contains_key node_id r.states ≡ false
      → (replay_one (replayed (insert node_id s r.states) r.expected) t
          ≡ ok (replayed (insert node_id s r'.states) r'.expected))
        × (contains_key node_id r'.states ≡ false)
  unfolding replay_one contains_key
  replay_one_beside r r' t h new = ground (
    arith,
    h,
    new,
    lookup-insert node_id t.node_id s r.states,
    insert_comm t.node_id node_id t.to s r.states,
    contains_key-insert t.node_id node_id t.to r.states,
  )

  replay_beside :
      (r r' : Replay) (ts : List ExecutionTransition)
      → fold_result replay_one r ts ≡ ok r'
      → contains_key node_id r.states ≡ false
      → fold_result replay_one (replayed (insert node_id s r.states) r.expected) ts
        ≡ ok (replayed (insert node_id s r'.states) r'.expected)
  unfolding fold_result
  replay_beside r r' [] h new = ground (arith, h)
  replay_beside r r' (t ∷ ts) h new =
      let (u, e, rest) = fold_result-first replay_one r r' t ts h in
      let (e', new') = replay_one_beside r u t e new in
      fold_result-cons replay_one (replayed (insert node_id s r.states) r.expected)
        (replayed (insert node_id s u.states) u.expected) t ts e'
      ∙ replay_beside u r' ts rest new'

empty-IsRecorded : (task_id : String) → IsRecorded (empty_graph task_id)
unfolding fold_result project
empty-IsRecorded task_id = refl

pub record HasHistory (g : ExecutionGraph) : Type 0 where
  pub ids : HasIds g
  pub recorded : IsRecorded g

HasHistory-IsPreserved : IsPreserved HasHistory
HasHistory-IsPreserved = record {
  moves = record {
    move = λ g node_id node to reason found valid met h. record {
      ids = HasIds-IsPreserved.moves.move g node_id node to reason found valid met h.ids;
      recorded = IsRecorded-moved g node_id node to reason h.ids found valid h.recorded;
    };
  };
  frame =
      λ g a r i h. record { ids = HasIds-IsPreserved.frame g a r i h.ids; recorded = h.recorded };
}

unstarted-new :
    (node_id : String) (g : ExecutionGraph)
    → contains_key node_id g.nodes ≡ false
    → contains_key node_id (unstarted g.nodes) ≡ false
unfolding contains_key
unstarted-new node_id g new = ground (arith, new, lookup-project (λ _. pending) node_id g.nodes)

add_node-IsRecorded :
    (node : ExecutionNode) (g : ExecutionGraph)
    → node.state ≡ pending
    → IsRecorded g
    → IsRecorded (add_node node g).1
add_node-IsRecorded node g fresh h = add_node_cases IsRecorded g h node λ may.
    rw
      (
        project-insert (λ _. pending) node.id node g.nodes,
        project-insert (λ n. n.state) node.id node g.nodes,
        fresh,
      )
      (replay_beside node.id pending (replayed (unstarted g.nodes) 1)
        (replayed (states g.nodes) g.next_sequence) g.transitions h
        (unstarted-new node.id g may.is_new))

add_edge-HasHistory :
    (edge : ExecutionEdge) (g : ExecutionGraph) → HasHistory g → HasHistory (add_edge edge g).1
add_edge-HasHistory edge g h = add_edge_cases HasHistory g h edge λ may. record {
  ids = record { sorted = h.ids.sorted; keyed = h.ids.keyed };
  recorded = h.recorded;
}

-- After any calls on a new graph, nodes being added as pending, its transitions are the whole
-- history of its nodes: replayed as a recovery replays them, one after the other from all nodes
-- pending and the number 1, they are accepted, and they give the states that the nodes have and the
-- next number to give out.
pub Steps-IsRecorded :
    (task_id : String) {g h : ExecutionGraph} → new task_id ≡ ok g → Steps g h → IsRecorded h
Steps-IsRecorded task_id {g} {h} e s = (Steps-HasHistory s).recorded
  where
    Steps-HasHistory : {k : ExecutionGraph} → Steps g k → HasHistory k
    Steps-HasHistory start =
        subst HasHistory (new-eq task_id g e)
          (record { ids = record { sorted = tt; keyed = tt }; recorded = empty-IsRecorded task_id })
    Steps-HasHistory (next r t) =
        Step_keeps HasHistory HasHistory-IsPreserved
          (λ node k fresh ids p. record {
            ids = add_node-HasIds node k ids;
            recorded = add_node-IsRecorded node k fresh p.recorded;
          })
          (λ edge k _ p. add_edge-HasHistory edge k p) t (Steps-HasHistory r).ids
          (Steps-HasHistory r)
