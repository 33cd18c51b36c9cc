-- ===== src/Runner/Durable.antt =====
-- `DurableExecutionRunner`: every change of a graph goes to the store first.
use zhongshu.Prelude.{String, ℕ, List, Option, none, some, Result, ok, err, if◌then◌else◌, Bool}
use zhongshu.Execution.Graph.{node}
use zhongshu.Execution.Lifecycle
use zhongshu.Execution.Lifecycle.{
  start_node, start_ready_batch, complete_node, fail_node, cancel_node,
}
use zhongshu.Execution.Snapshot.{checkpoint, recover_from_checkpoint}
use zhongshu.Execution.Types.{
  ExecutionGraph, ExecutionGraphError, ExecutionGraphCheckpoint, ExecutionNode, ExecutionArtifact,
  ExecutionReconciliationDecision, ExecutionRecoveryReport, NodeExecutionOutcome, missing_node,
}
use zhongshu.Execution.Method.{Method}
use zhongshu.Runner.Store.{
  Store, StoreFault, task_lost, refused, ExecutionGraphStoreError, StoredExecutionGraphCheckpoint,
}

pub data DurablePersistencePhase : Type 0 where
  initialize_phase admission outcome_phase recovery reconciliation : DurablePersistencePhase

pub data DurableExecutionError : Type 0 where
  graph_error : ExecutionGraphError → DurableExecutionError
  store_error : DurablePersistencePhase → ExecutionGraphStoreError → DurableExecutionError
  persistence_task : DurablePersistencePhase → String → DurableExecutionError
  deferred_after_admission : String → DurableExecutionError
  outcome_projection : String → ExecutionGraphError → DurableExecutionError

pub record DurableExecutionRecovery : Type 0 where
  pub graph : ExecutionGraph
  pub store_version : ℕ
  pub report : ExecutionRecoveryReport

-- What the calls change: the caller's graph and version, and the store.
pub record Run (S : Type 0) : Type 0 where
  pub graph : ExecutionGraph
  pub store_version : ℕ
  pub store : S

abbrev pub Outcome : Type 0 → Type 0
Outcome S = Result DurableExecutionError (Unit {0}) × Run S

unfoldable pub lift_fault : DurablePersistencePhase → StoreFault → DurableExecutionError
lift_fault phase (task_lost reason) = persistence_task phase reason
lift_fault phase (refused e) = store_error phase e

module _ {S : Type 0} (store : Store S) where
  -- The two `map_err` of `save_checkpoint`.
  unfoldable pub with_phase :
      DurablePersistencePhase → Result StoreFault ℕ × S → Result DurableExecutionError ℕ × S
  unfolding lift_fault
  with_phase phase (ok version, s) = (ok version, s)
  with_phase phase (err fault, s) = (err (lift_fault phase fault), s)

  unfoldable pub save_checkpoint :
      ExecutionGraphCheckpoint
      → ℕ
      → DurablePersistencePhase
      → S
      → Result DurableExecutionError ℕ × S
  unfolding with_phase
  save_checkpoint c expected phase s = with_phase phase (store.save_graph_cas c expected s)

  -- `*graph = next; *store_version = version`, once the checkpoint of `next` is saved.
  unfoldable pub keep_saved :
      ExecutionGraph → Run S → Result DurableExecutionError ℕ × S → Outcome S
  keep_saved next r (ok version, s) =
      (ok tt, record { graph = next; store_version = version; store = s })
  keep_saved next r (err e, s) = (err e, record r { store = s })

  unfoldable pub persist : DurablePersistencePhase → ExecutionGraph → Run S → Outcome S
  unfolding save_checkpoint keep_saved checkpoint
  persist phase next r =
      keep_saved next r (save_checkpoint (checkpoint next) r.store_version phase r.store)

  -- A method on a clone of the graph, which then is saved, if the method has not failed.
  unfoldable pub persist_after :
      DurablePersistencePhase
      → (ExecutionGraphError → DurableExecutionError)
      → Run S
      → Result ExecutionGraphError (Unit {0}) × ExecutionGraph
      → Outcome S
  unfolding persist
  persist_after phase lift r (ok done, next) = persist phase next r
  persist_after phase lift r (err e, next) = (err (lift e), r)

  unfoldable pub initialize : ExecutionGraph → S → Result DurableExecutionError ℕ × S
  unfolding save_checkpoint checkpoint
  initialize g s = save_checkpoint (checkpoint g) 0 initialize_phase s

  unfoldable pub admit_node : String → Run S → Outcome S
  unfolding persist_after start_node
  admit_node node_id r = persist_after admission graph_error r (start_node node_id r.graph)

  unfoldable pub admit_ready_batch : List String → Run S → Outcome S
  unfolding persist_after start_ready_batch
  admit_ready_batch node_ids r =
      persist_after admission graph_error r (start_ready_batch node_ids r.graph)

  unfoldable pub commit_deterministic : Method (Unit {0}) → Run S → Outcome S
  unfolding persist_after
  commit_deterministic transition r = persist_after outcome_phase graph_error r (transition r.graph)

  unfoldable pub record_outcome : String → NodeExecutionOutcome → Run S → Outcome S
  unfolding persist_after complete_node fail_node cancel_node
  record_outcome node_id (NodeExecutionOutcome.succeeded artifacts) r =
      persist_after outcome_phase (outcome_projection node_id) r
        (complete_node node_id artifacts r.graph)
  record_outcome node_id (NodeExecutionOutcome.failed reason) r =
      persist_after outcome_phase (outcome_projection node_id) r (fail_node node_id reason r.graph)
  record_outcome node_id (NodeExecutionOutcome.cancelled reason) r =
      persist_after outcome_phase (outcome_projection node_id) r
        (cancel_node node_id reason r.graph)
  record_outcome node_id NodeExecutionOutcome.deferred r =
      (err (deferred_after_admission node_id), r)

  unfoldable pub reconcile_node :
      String
      → ExecutionReconciliationDecision
      → String
      → List String
      → List ExecutionArtifact
      → Run S
      → Outcome S
  unfolding persist_after Lifecycle.reconcile_node
  reconcile_node node_id decision reason evidence_refs artifacts r =
      persist_after reconciliation graph_error r
        (Lifecycle.reconcile_node node_id decision reason evidence_refs artifacts r.graph)

  unfoldable pub load_checkpoint :
      String → S → Result DurableExecutionError (Option StoredExecutionGraphCheckpoint)
  unfolding lift_fault
  load_checkpoint task_id s = elim (store.load_graph task_id s) [
    | ok stored ↦ ok stored
    | err fault ↦ err (lift_fault recovery fault)
  ]

  -- `==` of two checkpoints is derived; it is the parameter `same`.
  module _ (same : ExecutionGraphCheckpoint → ExecutionGraphCheckpoint → Bool) where
    abbrev Recovered : Type 0
    Recovered = Result DurableExecutionError (Option DurableExecutionRecovery) × S

    unfoldable pub with_version :
        ExecutionGraph → ExecutionRecoveryReport → Result DurableExecutionError ℕ × S → Recovered
    with_version g report (ok version, s) =
        (ok (some (record { graph = g; store_version = version; report = report })), s)
    with_version g report (err e, s) = (err e, s)

    -- What follows `recover_from_checkpoint`.
    unfoldable pub store_recovered :
        StoredExecutionGraphCheckpoint
        → S
        → Result ExecutionGraphError (ExecutionGraph × ExecutionRecoveryReport)
        → Recovered
    unfolding with_version save_checkpoint checkpoint
    store_recovered stored s (err e) = (err (graph_error e), s)
    store_recovered stored s (ok (g, report)) = with_version g report (
        if same (checkpoint g) stored.checkpoint
        then (ok stored.version, s)
        else save_checkpoint (checkpoint g) stored.version recovery s)

    unfoldable pub recover_loaded :
        S → Result DurableExecutionError (Option StoredExecutionGraphCheckpoint) → Recovered
    unfolding store_recovered recover_from_checkpoint
    recover_loaded s (err e) = (err e, s)
    recover_loaded s (ok none) = (ok none, s)
    recover_loaded s (ok (some stored)) =
        store_recovered stored s (recover_from_checkpoint stored.checkpoint)

    unfoldable pub recover : String → S → Recovered
    unfolding recover_loaded load_checkpoint
    recover task_id s = recover_loaded s (load_checkpoint task_id s)

  -- A handler acts on a world `W`; it is shown the store at the moment of the call.
  module _ {W : Type 0} (handler : ExecutionNode → S → W → NodeExecutionOutcome × W) where
    abbrev Executed : Type 0
    Executed = Result DurableExecutionError NodeExecutionOutcome × Run S × W

    unfoldable pub answer : NodeExecutionOutcome → Outcome S → W → Executed
    answer outcome (ok done, r) w = (ok outcome, r, w)
    answer outcome (err e, r) w = (err e, r, w)

    unfoldable pub handle_node : String → Option ExecutionNode → Run S → W → Executed
    unfolding answer record_outcome
    handle_node node_id none r w = (err (graph_error (missing_node node_id)), r, w)
    handle_node node_id (some n) r w =
        answer (handler n r.store w).0 (record_outcome node_id (handler n r.store w).0 r)
          (handler n r.store w).1

    unfoldable pub handle_admitted : String → Outcome S → W → Executed
    unfolding handle_node node
    handle_admitted node_id (ok done, r) w = handle_node node_id (node r.graph node_id) r w
    handle_admitted node_id (err e, r) w = (err e, r, w)

    unfoldable pub execute_node : String → Run S → W → Executed
    unfolding handle_admitted admit_node
    execute_node node_id r w = handle_admitted node_id (admit_node node_id r) w
