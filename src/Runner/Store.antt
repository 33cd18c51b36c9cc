-- ===== src/Runner/Store.antt =====
-- What the runner needs of a store: the trait `ExecutionGraphStore`, called from a blocking task.
use zhongshu.Prelude.{String, ℕ, Option, some, Result, ok, err, ◌≡◌}
use zhongshu.Execution.Types.{ExecutionGraphCheckpoint}

pub record StoredExecutionGraphCheckpoint : Type 0 where
  pub version : ℕ
  pub checkpoint : ExecutionGraphCheckpoint
  pub updated_at : ℕ

-- The errors of the database and of the serializer are those of their libraries.
pub data ExecutionGraphStoreError : Type 0 where
  database : String → ExecutionGraphStoreError
  serialization : String → ExecutionGraphStoreError
  version_conflict : ℕ → ℕ → ExecutionGraphStoreError
  unsupported_version : ℕ → ExecutionGraphStoreError
  no_task_id : ExecutionGraphStoreError

-- Why `spawn_blocking(...).await` did not give a value: the task was lost, or the store refused.
pub data StoreFault : Type 0 where
  task_lost : String → StoreFault
  refused : ExecutionGraphStoreError → StoreFault

pub record Store (S : Type 0) : Type 0 where
  pub save_graph_cas : ExecutionGraphCheckpoint → ℕ → S → Result StoreFault ℕ × S
  pub load_graph : String → S → Result StoreFault (Option StoredExecutionGraphCheckpoint)

-- The store holds the checkpoint of a task, in this version.
abbrev pub Holds : {S : Type 0} → Store S → S → ExecutionGraphCheckpoint → ℕ → Type 0
Holds store s c version =
    (updated_at : ℕ) × (store.load_graph c.graph.task_id s
      ≡ ok (some (record { version = version; checkpoint = c; updated_at = updated_at })))

-- What a store promises: what it has saved it gives back, and a refused save changes nothing.
pub record IsStore {S : Type 0} (store : Store S) (IsFit : String → Type 0) : Type 0 where
  pub saved :
      (c : ExecutionGraphCheckpoint) (expected version : ℕ) (s t : S)
      → IsFit c.graph.task_id
      → store.save_graph_cas c expected s ≡ (ok version, t)
      → Holds store t c version
  pub unsaved :
      (c : ExecutionGraphCheckpoint) (expected : ℕ) (e : ExecutionGraphStoreError) (s t : S)
      → store.save_graph_cas c expected s ≡ (err (refused e), t)
      → t ≡ s
