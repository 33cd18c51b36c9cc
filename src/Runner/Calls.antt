-- ===== src/Runner/Calls.antt =====
-- The store keeps up with the graph: what a call of the runner leaves behind.
use zhongshu.Prelude.{String, ℕ, List, Result, ok, err, ◌≡◌, refl, sym, subst, ◌⊎◌, inl, inr}
use zhongshu.Execution.Lifecycle
use zhongshu.Execution.Lifecycle.{
  start_node, start_ready_batch, complete_node, fail_node, cancel_node,
}
use zhongshu.Execution.Snapshot.{checkpoint, snapshot}
use zhongshu.Execution.Readiness.{HasIds}
use zhongshu.Execution.Preserved.{
  start_node_keeps, start_ready_batch_keeps, fail_node_keeps, cancel_node_keeps,
}
use zhongshu.Execution.Kept.{IsPreserved, complete_node_keeps, reconcile_node_keeps}
use zhongshu.Execution.Method.{Method}
use zhongshu.Execution.Types.{
  ExecutionGraph, ExecutionGraphError, ExecutionArtifact, ExecutionReconciliationDecision,
  NodeExecutionOutcome,
}
use zhongshu.Runner.Store.{Store, IsStore, Holds, StoreFault}
use zhongshu.Runner.Durable.{
  Run, Outcome, DurableExecutionError, DurablePersistencePhase, save_checkpoint, with_phase,
  keep_saved, persist, persist_after, admit_node, admit_ready_batch, commit_deterministic,
  record_outcome, reconcile_node, lift_fault, admission, outcome_phase, reconciliation, graph_error,
  outcome_projection, deferred_after_admission,
}

-- A call that answers with an error leaves the graph and its version as they were.
abbrev pub IsUnchanged : {S : Type 0} → Run S → Run S → Type 0
IsUnchanged r t = (t.graph ≡ r.graph) × (t.store_version ≡ r.store_version)

unfoldable pub HasTask : String → ExecutionGraph → Type 0
HasTask task_id g = g.task_id ≡ task_id

pub HasTask-IsPreserved : (task_id : String) → IsPreserved (HasTask task_id)
unfolding HasTask Lifecycle.moved
HasTask-IsPreserved task_id = record {
  moves = record { move = λ g node_id node to reason found valid met h. h };
  frame = λ g a r i h. h;
}

module _ {S : Type 0} (store : Store S) (IsFit : String → Type 0) where
  -- The store has the graph, in the version that the caller knows.
  abbrev pub IsDurable : Run S → Type 0
  IsDurable r = Holds store r.store (checkpoint r.graph) r.store_version

  -- One call of the runner on a graph; a transition that is committed keeps the task id, which the
  -- source does not check.
  pub data Call (r : Run S) : Outcome S → Type 0 where
    admits : (node_id : String) → Call r (admit_node store node_id r)
    admits_batch : (node_ids : List String) → Call r (admit_ready_batch store node_ids r)
    commits :
        (transition : Method (Unit {0}))
        → ((transition r.graph).1.task_id ≡ r.graph.task_id)
        → Call r (commit_deterministic store transition r)
    records :
        (node_id : String) (outcome : NodeExecutionOutcome)
        → Call r (record_outcome store node_id outcome r)
    reconciles :
        (node_id : String) (decision : ExecutionReconciliationDecision) (reason : String)
        (evidence_refs : List String) (artifacts : List ExecutionArtifact)
        → Call r (reconcile_node store node_id decision reason evidence_refs artifacts r)

  abbrev pub IsKept : Run S → Outcome S → Type 0
  IsKept r o =
      ((o.0 ≡ ok tt) × IsDurable o.1)
      ⊎ ((e : DurableExecutionError) × (o.0 ≡ err e) × IsUnchanged r o.1)

  module _ (is_store : IsStore store IsFit) where
    kept : (r : Run S) → IsPreserved (HasTask r.graph.task_id)
    kept r = HasTask-IsPreserved r.graph.task_id

    persist-IsKept :
        (phase : DurablePersistencePhase) (next : ExecutionGraph) (r : Run S)
        → IsFit next.task_id
        → IsKept r (persist store phase next r)
    unfolding persist checkpoint snapshot keep_saved with_phase save_checkpoint
    persist-IsKept phase next r fit =
        go (store.save_graph_cas (checkpoint next) r.store_version r.store) refl
      where
        go :
            (saved : Result StoreFault ℕ × S)
            → store.save_graph_cas (checkpoint next) r.store_version r.store ≡ saved
            → IsKept r (keep_saved store next r (with_phase store phase saved))
        go (ok version, t) e =
            inl (refl, is_store.saved (checkpoint next) r.store_version version r.store t fit e)
        go (err fault, t) e = inr (lift_fault phase fault, refl, (refl, refl))

    persist_after-IsKept :
        (phase : DurablePersistencePhase) (lift : ExecutionGraphError → DurableExecutionError)
        (r : Run S) (m : Result ExecutionGraphError (Unit {0}) × ExecutionGraph)
        → IsFit r.graph.task_id
        → m.1.task_id ≡ r.graph.task_id
        → IsKept r (persist_after store phase lift r m)
    unfolding persist_after
    persist_after-IsKept phase lift r (ok done, next) fit e =
        persist-IsKept phase next r (subst IsFit (sym e) fit)
    persist_after-IsKept phase lift r (err x, next) fit e = inr (lift x, refl, (refl, refl))

    pub record_outcome-IsKept :
        (r : Run S) (node_id : String) (outcome : NodeExecutionOutcome)
        → IsFit r.graph.task_id
        → IsKept r (record_outcome store node_id outcome r)
    unfolding record_outcome HasTask
    record_outcome-IsKept r node_id (NodeExecutionOutcome.succeeded artifacts) fit =
        persist_after-IsKept outcome_phase (outcome_projection node_id) r
          (complete_node node_id artifacts r.graph) fit
          (complete_node_keeps (HasTask r.graph.task_id) (kept r) node_id artifacts r.graph refl)
    record_outcome-IsKept r node_id (NodeExecutionOutcome.failed reason) fit =
        persist_after-IsKept outcome_phase (outcome_projection node_id) r
          (fail_node node_id reason r.graph) fit
          (fail_node_keeps (HasTask r.graph.task_id) (kept r).moves node_id reason r.graph refl)
    record_outcome-IsKept r node_id (NodeExecutionOutcome.cancelled reason) fit =
        persist_after-IsKept outcome_phase (outcome_projection node_id) r
          (cancel_node node_id reason r.graph) fit
          (cancel_node_keeps (HasTask r.graph.task_id) (kept r).moves node_id reason r.graph refl)
    record_outcome-IsKept r node_id NodeExecutionOutcome.deferred fit =
        inr (deferred_after_admission node_id, refl, (refl, refl))

    -- On a store that keeps its promises, a task id that is fit for it, and a graph whose nodes are
    -- in the order of their ids, each under its own: a call of the runner, where a transition that is
    -- committed keeps the task id, succeeds, and then the
    -- store holds the graph that the caller has now, in the version that the caller has now; or it
    -- fails, and then the caller's graph and version are as before.
    pub Call-IsKept :
        {r : Run S} {o : Outcome S} → Call r o → HasIds r.graph → IsFit r.graph.task_id → IsKept r o
    unfolding admit_node admit_ready_batch commit_deterministic reconcile_node HasTask
    Call-IsKept {r} (admits node_id) ids fit =
        persist_after-IsKept admission graph_error r (start_node node_id r.graph) fit
          (start_node_keeps (HasTask r.graph.task_id) (kept r).moves node_id r.graph ids refl)
    Call-IsKept {r} (admits_batch node_ids) ids fit =
        persist_after-IsKept admission graph_error r (start_ready_batch node_ids r.graph) fit (
          start_ready_batch_keeps (HasTask r.graph.task_id) (kept r).moves node_ids r.graph ids
            refl)
    Call-IsKept {r} (commits transition same) ids fit =
        persist_after-IsKept outcome_phase graph_error r (transition r.graph) fit same
    Call-IsKept {r} (records node_id outcome) ids fit = record_outcome-IsKept r node_id outcome fit
    Call-IsKept {r} (reconciles node_id decision reason evidence_refs artifacts) ids fit =
        persist_after-IsKept reconciliation graph_error r
          (Lifecycle.reconcile_node node_id decision reason evidence_refs artifacts r.graph) fit
          (reconcile_node_keeps (HasTask r.graph.task_id) (kept r) node_id decision reason
            evidence_refs artifacts r.graph refl)
