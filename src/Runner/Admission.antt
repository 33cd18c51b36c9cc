-- ===== src/Runner/Admission.antt =====
-- `execute_node`: the handler runs behind a saved admission.
use zhongshu.Prelude.{
  String, ℕ, Option, none, some, Result, ok, err, ◌≡◌, refl, sym, ap, subst, ◌⊎◌, inl, inr, ◌∙◌,
  arith, Bool-cases, any, ◌==◌,
}
use zhongshu.OrderedMap.{lookup}
use zhongshu.Execution.Graph.{node, ready_node_ids}
use zhongshu.Execution.Lifecycle.{start_node, complete_node, fail_node, cancel_node}
use zhongshu.Execution.Ends.{Ends, complete_node-Ends, fail_node-Ends, cancel_node-Ends}
use zhongshu.Execution.Moves.{state_of, state_of-moved, transition_result}
use zhongshu.Execution.Snapshot.{checkpoint}
use zhongshu.Execution.Readiness.{HasIds}
use zhongshu.Execution.Preserved.{start_node_keeps}
use zhongshu.Execution.Types.{
  ExecutionGraph, ExecutionGraphError, ExecutionNode, NodeExecutionOutcome, running,
}
use zhongshu.Runner.Store.{Store, IsStore, StoreFault}
use zhongshu.Runner.Durable.{
  Run, Outcome, DurablePersistencePhase, DurableExecutionError, persist_after, persist, keep_saved,
  save_checkpoint, with_phase, admit_node, record_outcome, execute_node, handle_admitted,
  handle_node, answer, admission, graph_error, outcome_phase, outcome_projection,
}
use zhongshu.Runner.Calls.{
  IsUnchanged, IsDurable, IsKept, admits, Call-IsKept, record_outcome-IsKept, HasTask,
  HasTask-IsPreserved,
}

-- The graph of a successful `start_node` has the node running.
start_node_starts :
    (node_id : String) (g h : ExecutionGraph)
    → start_node node_id g ≡ (ok tt, h)
    → state_of h node_id ≡ some running
unfolding start_node
start_node_starts node_id g h e =
    elim (Bool-cases (any (λ ready. ready == node_id) (ready_node_ids g))) [
      | inl ready ↦ elim (transition_result node_id running none g) [
        | inl (x, refused) ↦ absurd (ground (arith, e, ready, refused))
        | inr (n, found, step, done) ↦
            ground (arith, e, ready, done, state_of-moved node_id n running none g node_id)
      ]
      | inr early ↦ absurd (ground (arith, e, early))
    ]

module _ {S : Type 0} (store : Store S) (IsFit : String → Type 0) where
  -- What is saved is what the caller gets.
  persist_graph :
      (phase : DurablePersistencePhase) (next : ExecutionGraph) (r : Run S)
      → (persist store phase next r).0 ≡ ok tt
      → (persist store phase next r).1.graph ≡ next
  unfolding persist save_checkpoint keep_saved with_phase
  persist_graph phase next r = go (store.save_graph_cas (checkpoint next) r.store_version r.store)
    where
      go :
          (saved : Result StoreFault ℕ × S)
          → (keep_saved store next r (with_phase store phase saved)).0 ≡ ok tt
          → (keep_saved store next r (with_phase store phase saved)).1.graph ≡ next
      go (ok version, t) e = refl
      go (err fault, t) e = absurd (ground (arith, e))

  -- A method that was saved has succeeded, and the caller has its graph.
  persist_after-method :
      (phase : DurablePersistencePhase) (lift : ExecutionGraphError → DurableExecutionError)
      (r : Run S) (m : Result ExecutionGraphError (Unit {0}) × ExecutionGraph)
      → (persist_after store phase lift r m).0 ≡ ok tt
      → m ≡ (ok tt, (persist_after store phase lift r m).1.graph)
  unfolding persist_after
  persist_after-method phase lift r (ok done, next) saved =
      ap (λ g. (ok tt, g)) (sym (persist_graph phase next r saved))
  persist_after-method phase lift r (err x, next) saved = absurd (ground (arith, saved))

  admit_node-start :
      (node_id : String) (r : Run S)
      → (admit_node store node_id r).0 ≡ ok tt
      → start_node node_id r.graph ≡ (ok tt, (admit_node store node_id r).1.graph)
  unfolding admit_node
  admit_node-start node_id r =
      persist_after-method admission graph_error r (start_node node_id r.graph)

  -- An outcome that was saved is the one of the handler.
  record_outcome-Ends :
      (node_id : String) (outcome : NodeExecutionOutcome) (r : Run S)
      → state_of r.graph node_id ≡ some running
      → (record_outcome store node_id outcome r).0 ≡ ok tt
      → Ends outcome node_id r.graph (record_outcome store node_id outcome r).1.graph
  unfolding record_outcome
  record_outcome-Ends node_id (NodeExecutionOutcome.succeeded artifacts) r runs saved =
      complete_node-Ends node_id artifacts r.graph _ (
        persist_after-method outcome_phase (outcome_projection node_id) r
          (complete_node node_id artifacts r.graph) saved)
  record_outcome-Ends node_id (NodeExecutionOutcome.failed reason) r runs saved =
      fail_node-Ends node_id reason r.graph runs _ (
        persist_after-method outcome_phase (outcome_projection node_id) r
          (fail_node node_id reason r.graph) saved)
  record_outcome-Ends node_id (NodeExecutionOutcome.cancelled reason) r runs saved =
      cancel_node-Ends node_id reason r.graph runs _ (
        persist_after-method outcome_phase (outcome_projection node_id) r
          (cancel_node node_id reason r.graph) saved)
  record_outcome-Ends node_id NodeExecutionOutcome.deferred r runs saved =
      absurd (ground (arith, saved))

  module _ (is_store : IsStore store IsFit) {W : Type 0}
      (handler : ExecutionNode → S → W → NodeExecutionOutcome × W) (node_id : String) where
    start_node-task :
        (r : Run S)
        → HasIds r.graph
        → (h : ExecutionGraph) → start_node node_id r.graph ≡ (ok tt, h)
        → h.task_id ≡ r.graph.task_id
    unfolding HasTask
    start_node-task r ids h e =
        subst
          (λ (m : Result ExecutionGraphError (Unit {0}) × ExecutionGraph).
            m.1.task_id ≡ r.graph.task_id)
          e
          (start_node_keeps (HasTask r.graph.task_id) (HasTask-IsPreserved r.graph.task_id).moves
            node_id r.graph ids refl)

    -- The handler has not been called, and nothing has changed for the caller.
    abbrev pub IsNotRun :
        Run S → W → Result DurableExecutionError NodeExecutionOutcome × Run S × W → Type 0
    IsNotRun r w out =
        (e : DurableExecutionError) × (out.0 ≡ err e) × IsUnchanged r out.1 × (out.2 ≡ w)

    -- The handler has been called once, on a running node of `s`, which the store held at that
    -- moment; then the outcome is returned, the node has ended by it in the graph, and the store holds
    -- that graph; or an error is returned, and the graph is that of `s`, in which the node runs.
    abbrev pub IsRun :
        Run S → W → Result DurableExecutionError NodeExecutionOutcome × Run S × W → Type 0
    IsRun s w out =
        IsDurable store IsFit s
        × (state_of s.graph node_id ≡ some running)
        × (n : ExecutionNode) × (lookup node_id s.graph.nodes ≡ some n)
        × (out.2 ≡ (handler n s.store w).1)
        × (((out.0 ≡ ok (handler n s.store w).0)
              × IsDurable store IsFit out.1
              × Ends (handler n s.store w).0 node_id s.graph out.1.graph)
            ⊎ ((e : DurableExecutionError) × (out.0 ≡ err e) × IsUnchanged s out.1))

    answered :
        (s : Run S) (outcome : NodeExecutionOutcome) (o : Outcome S) (w : W)
        → IsKept store IsFit s o
        → (o.0 ≡ ok tt → Ends outcome node_id s.graph o.1.graph)
        → (((answer store handler outcome o w).0 ≡ ok outcome)
            × IsDurable store IsFit (answer store handler outcome o w).1
            × Ends outcome node_id s.graph (answer store handler outcome o w).1.graph)
          ⊎ ((e : DurableExecutionError) × ((answer store handler outcome o w).0 ≡ err e)
              × IsUnchanged s (answer store handler outcome o w).1)
    unfolding answer
    answered s outcome (ok done, t) w (inl (e, durable)) ends = inl (refl, durable, ends refl)
    answered s outcome (ok done, t) w (inr (x, e, unchanged)) ends = absurd (ground (arith, e))
    answered s outcome (err x, t) w (inl (e, durable)) ends = absurd (ground (arith, e))
    answered s outcome (err x, t) w (inr (y, e, unchanged)) ends = inr (x, refl, unchanged)

    answer-world :
        (outcome : NodeExecutionOutcome) (o : Outcome S) (w : W)
        → (answer store handler outcome o w).2 ≡ w
    unfolding answer
    answer-world outcome (ok done, t) w = refl
    answer-world outcome (err x, t) w = refl

    handle_node-IsRun :
        (s : Run S) (w : W)
        → IsDurable store IsFit s
        → state_of s.graph node_id ≡ some running
        → IsFit s.graph.task_id
        → IsRun s w (handle_node store handler node_id (lookup node_id s.graph.nodes) s w)
    unfolding handle_node state_of
    handle_node-IsRun s w durable runs fit = go (lookup node_id s.graph.nodes) refl
      where
        go :
            (found : Option ExecutionNode)
            → lookup node_id s.graph.nodes ≡ found
            → IsRun s w (handle_node store handler node_id found s w)
        go none e = absurd (ground (arith, e, runs))
        go (some n) e = (
          durable,
          runs,
          n,
          e,
          answer-world (handler n s.store w).0
              (record_outcome store node_id (handler n s.store w).0 s) (handler n s.store w).1,
          answered s (handler n s.store w).0
              (record_outcome store node_id (handler n s.store w).0 s) (handler n s.store w).1
              (record_outcome-IsKept store IsFit is_store s node_id (handler n s.store w).0 fit)
              (record_outcome-Ends node_id (handler n s.store w).0 s runs),
        )

    -- On a store that keeps its promises, a task id that is fit for it, and a graph whose nodes are
    -- in the order of their ids, each under its own: `execute_node` does not call the handler
    -- unless the store holds the graph in which the node runs. Either the call fails before, and
    -- the handler's world and the caller's graph and version are as they were; or the handler is
    -- called once, at a moment at which the store holds the caller's graph and the node is running
    -- in it. Its outcome is then returned, and the store holds the caller's graph, in which the node
    -- alone has moved, to success with the artifacts of the outcome, or for the reason of the outcome
    -- to failure or cancellation; or an error is returned, and the caller's graph is the one in which
    -- the node is still running, as after an outcome that defers the node.
    pub execute_node_admits :
        (r : Run S) (w : W)
        → HasIds r.graph
        → IsFit r.graph.task_id
        → IsNotRun r w (execute_node store handler node_id r w)
          ⊎ ((s : Run S) × IsRun s w (execute_node store handler node_id r w))
    unfolding execute_node handle_admitted node
    execute_node_admits r w ids fit =
        go (admit_node store node_id r) refl
          (Call-IsKept store IsFit is_store (admits node_id) ids fit)
      where
        go :
            (o : Outcome S)
            → admit_node store node_id r ≡ o
            → IsKept store IsFit r o
            → IsNotRun r w (handle_admitted store handler node_id o w)
              ⊎ ((s : Run S) × IsRun s w (handle_admitted store handler node_id o w))
        go (err x, t) e (inl (p, durable)) = absurd (ground (arith, p))
        go (err x, t) e (inr (y, p, unchanged)) = inl (x, refl, unchanged, refl)
        go (ok done, t) e (inr (y, p, unchanged)) = absurd (ground (arith, p))
        go (ok done, t) e (inl (p, durable)) =
            let started : start_node node_id r.graph ≡ (ok tt, t.graph) =
              admit_node-start node_id r (ap (λ (q : Outcome S). q.0) e)
              ∙ ap (λ (q : Outcome S). (ok tt, q.1.graph)) e in
            inr (
              t,
              handle_node-IsRun t w durable (start_node_starts node_id r.graph t.graph started)
                  (subst IsFit (sym (start_node-task r ids t.graph started)) fit),
            )
