-- ===== src/Execution/Answers.antt =====
-- What `run_ready` makes of the answer of the handler for one node.
use zhongshu.Prelude.{
  String, [], none, some, Result, ok, err, ◌≡◌, refl, sym, ap, subst, ◌∙◌, arith,
}
use zhongshu.OrderedMap.{lookup}
use zhongshu.Execution.Method.{Method, ◌>>=◌, ◌>>◌, reads, proceed}
use zhongshu.Execution.Graph.{node}
use zhongshu.Execution.Lifecycle.{
  moved, validate_artifacts, start_node, complete_node, fail_node, cancel_node, set_state,
  is_cancellable,
}
use zhongshu.Execution.Moves.{state_of}
use zhongshu.Execution.Readiness.{HasIds, IsReady}
use zhongshu.Execution.Completed.{Moves, HasArtifacts, moved-Moves, last_artifact}
use zhongshu.Execution.Ends.{Ends, complete_node-Ends, fail_node-Ends}
use zhongshu.Execution.Schedule.{Round, returns, executed, run_outcome, run_node}
use zhongshu.Execution.Runs.{start_ready}
use zhongshu.Execution.Types.{
  ExecutionGraph, ExecutionGraphError, ExecutionNode, NodeExecutionOutcome, pending, running,
  cancelled,
}

-- A node that was pending has run, and has ended by the outcome.
abbrev pub RanTo : NodeExecutionOutcome → String → ExecutionGraph → ExecutionGraph → Type 0
RanTo outcome node_id g h =
    (m : ExecutionGraph) × Moves node_id pending running none g m
    × HasArtifacts [] g m
    × Ends outcome node_id m h

-- What an outcome makes of a graph in which its node is pending: a node that is deferred stays as it is,
-- and one that is cancelled never runs.
abbrev pub Answered : NodeExecutionOutcome → String → ExecutionGraph → ExecutionGraph → Type 0
Answered NodeExecutionOutcome.deferred node_id g h = h ≡ g
Answered (NodeExecutionOutcome.succeeded artifacts) node_id g h =
    RanTo (NodeExecutionOutcome.succeeded artifacts) node_id g h
Answered (NodeExecutionOutcome.failed reason) node_id g h =
    RanTo (NodeExecutionOutcome.failed reason) node_id g h
Answered (NodeExecutionOutcome.cancelled reason) node_id g h =
    Moves node_id pending cancelled (some reason) g h × HasArtifacts [] g h

bind_inverse {ℓ κ} :
    {A : Type ℓ} {B : Type κ} (x : Method A) (f : A → Method B) (g h : ExecutionGraph) (b : B)
    → (x >>= f) g ≡ (ok b, h)
    → (a : A) × (k : ExecutionGraph) × (x g ≡ (ok a, k)) × (f a k ≡ (ok b, h))
bind_inverse {A} {B} x f g h b e = go (x g) refl e
  where
    go :
        (m : Result ExecutionGraphError A × ExecutionGraph)
        → x g ≡ m
        → proceed f m.0 m.1 ≡ (ok b, h)
        → (a : A) × (k : ExecutionGraph) × (x g ≡ (ok a, k)) × (f a k ≡ (ok b, h))
    go (ok a, k) p q = (a, k, p, q)
    go (err y, k) p q = absurd (ground (arith, q))

ok_inverse {ℓ} :
    {A : Type ℓ} (a b : A) (g h : ExecutionGraph) → returns a g ≡ (ok b, h) → (a ≡ b) × (g ≡ h)
ok_inverse a b g h e = (ground (arith, e), ap (λ x. x.1) e)

module _ (node_id : String) (g : ExecutionGraph) where
  runs_now :
      (m : ExecutionGraph)
      → Moves node_id pending running none g m
      → state_of m node_id ≡ some running
  runs_now m moves = ground (arith, moves.states node_id)

  no_artifacts : (m : ExecutionGraph) → m.artifacts ≡ g.artifacts → HasArtifacts [] g m
  unfolding last_artifact
  no_artifacts m e id = ap (lookup id) e

module _ {ℓ} {S : Type ℓ} (handler : S → ExecutionNode → NodeExecutionOutcome × S)
    (g : ExecutionGraph) (ids : HasIds g) (node_id : String) (ready : IsReady g node_id) where
  -- The node starts, and a method ends it.
  started :
      (outcome : NodeExecutionOutcome) (end_node : Method (Unit {0})) (r s : Round S)
      (h : ExecutionGraph)
      → ((m k : ExecutionGraph)
          → state_of m node_id ≡ some running
          → end_node m ≡ (ok tt, k)
          → Ends outcome node_id m k)
      → (start_node node_id >> (end_node >> returns (executed handler node_id r))) g ≡ (ok s, h)
      → (s.world ≡ r.world) × RanTo outcome node_id g h
  started outcome end_node r s h ends e =
      let last : Method (Round S) = returns (executed handler node_id r) in
      let (n, found, is_pending, start) = start_ready g node_id ids ready in
      let m : ExecutionGraph = moved node_id n running none g in
      let (u, k, first, rest) = bind_inverse (start_node node_id) (λ _. end_node >> last) g h s e in
      let (v, l, second, returned) = bind_inverse end_node (λ _. last) k h s rest in
      let at_start : k ≡ m =
        ap (λ (x : Result ExecutionGraphError (Unit {0}) × ExecutionGraph). x.1)
          (sym first ∙ start) in
      let (same_round, at_end) = ok_inverse (executed handler node_id r) s l h returned in
      let moves : Moves node_id pending running none g m =
        subst (λ t. Moves node_id t running none g m) is_pending
          (moved-Moves node_id n running none g found) in
      (
        ap (λ (x : Round S). x.world) (sym same_round),
        (
          m,
          moves,
          no_artifacts node_id g m (unfold moved in refl),
          ends m h (runs_now node_id g m moves)
              (ap end_node (sym at_start) ∙ second ∙ ap (λ x. (ok v, x)) at_end),
        ),
      )

  cancelled_node :
      (reason : String) (r s : Round S) (h : ExecutionGraph)
      → (cancel_node node_id reason >> returns (executed handler node_id r)) g ≡ (ok s, h)
      → (s.world ≡ r.world) × Answered (NodeExecutionOutcome.cancelled reason) node_id g h
  unfolding cancel_node is_cancellable set_state
  cancelled_node reason r s h e =
      let (n, found, is_pending, start) = start_ready g node_id ids ready in
      let m : ExecutionGraph = moved node_id n cancelled (some reason) g in
      let done : cancel_node node_id reason g ≡ (ok tt, m) = ground (arith, found, is_pending) in
      let (u, k, first, returned) =
        bind_inverse (cancel_node node_id reason) (λ _. returns (executed handler node_id r)) g h s
          e in
      let at_end : k ≡ m =
        ap (λ (x : Result ExecutionGraphError (Unit {0}) × ExecutionGraph). x.1)
          (sym first ∙ done) in
      let (same_round, last) = ok_inverse (executed handler node_id r) s k h returned in
      (
        ap (λ (x : Round S). x.world) (sym same_round),
        subst (λ x. Moves node_id pending cancelled (some reason) g x × HasArtifacts [] g x)
            (sym at_end ∙ last)
            (
              subst (λ t. Moves node_id t cancelled (some reason) g m) is_pending
                  (moved-Moves node_id n cancelled (some reason) g found),
              no_artifacts node_id g m (unfold moved in refl),
            ),
      )

  outcome-Answered :
      (outcome : NodeExecutionOutcome) (r s : Round S) (h : ExecutionGraph)
      → run_outcome handler node_id outcome r g ≡ (ok s, h)
      → (s.world ≡ r.world) × Answered outcome node_id g h
  unfolding run_outcome
  outcome-Answered NodeExecutionOutcome.deferred r s h e =
      let (same_round, at_end) = ok_inverse _ s g h e in
      (ap (λ (x : Round S). x.world) (sym same_round), sym at_end)
  outcome-Answered (NodeExecutionOutcome.succeeded artifacts) r s h e =
      let (u, k, first, rest) =
        bind_inverse (reads (λ x. validate_artifacts x node_id artifacts))
          (λ _.
            start_node node_id
            >> (complete_node node_id artifacts >> returns (executed handler node_id r)))
          g h s e in
      let same_graph : k ≡ g =
        sym (ap (λ (x : Result ExecutionGraphError (Unit {0}) × ExecutionGraph). x.1) first) in
      started (NodeExecutionOutcome.succeeded artifacts) (complete_node node_id artifacts) r s h
        (λ m l runs done. complete_node-Ends node_id artifacts m l done)
        (ap
            (start_node node_id
              >> (complete_node node_id artifacts >> returns (executed handler node_id r)))
            (sym same_graph)
          ∙ rest)
  outcome-Answered (NodeExecutionOutcome.failed reason) r s h e =
      started (NodeExecutionOutcome.failed reason) (fail_node node_id reason) r s h
        (λ m l runs done. fail_node-Ends node_id reason m runs l done) e
  outcome-Answered (NodeExecutionOutcome.cancelled reason) r s h e = cancelled_node reason r s h e

  -- If the turn of a node goes through, the handler was asked with the node as it is in the graph, the
  -- world is the one that it has left, and its answer was carried out.
  pub run_node-Answered :
      (r s : Round S) (h : ExecutionGraph)
      → run_node handler node_id r g ≡ (ok s, h)
      → (n : ExecutionNode) × (lookup node_id g.nodes ≡ some n)
        × (s.world ≡ (handler r.world n).1)
        × Answered (handler r.world n).0 node_id g h
  unfolding run_node node
  run_node-Answered r s h e =
      let (n, found, is_pending, start) = start_ready g node_id ids ready in
      let (world, answer) =
        outcome-Answered (handler r.world n).0 (record r { world = (handler r.world n).1 }) s h
          (rw (run_node, found) at e) in
      (n, found, world, answer)
