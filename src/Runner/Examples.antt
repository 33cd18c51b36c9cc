-- ===== src/Runner/Examples.antt =====
-- A store in memory and a small graph, on which the theorems about the runner are put to use.
use zhongshu.Prelude.{
  String, ℕ, ◌+◌, Bool, true, false, ◌&&◌, List, [], ◌∷◌, Option, none, some, Result, ok, err,
  if◌then◌else◌, eqb, ◌≡◌, refl, ◌⊎◌, arith, ◌==◌, String-discrete,
}
use zhongshu.OrderedMap.{values, lookup}
use zhongshu.Execution.Graph.{empty_graph, add_node}
use zhongshu.Execution.Readiness.{HasIds}
use zhongshu.Execution.Snapshot.{checkpoint, snapshot}
use zhongshu.Execution.Types.{
  ExecutionGraph, ExecutionGraphCheckpoint, ExecutionNode, NodeExecutionOutcome, pending_node, work,
}
use zhongshu.Execution.Steps.{here, next, adds_node}
use zhongshu.Execution.Safety.{Steps-HasIds}
use zhongshu.Runner.Store.{Store, IsStore, StoreFault, refused, version_conflict}
use zhongshu.Runner.Durable.{Run, admit_node, execute_node}
use zhongshu.Runner.Calls.{admits, IsKept, Call-IsKept}
use zhongshu.Runner.Admission.{IsNotRun, IsRun, execute_node_admits}
use zhongshu.Runner.Table.{Database, save_graph_cas, load_graph, delete_graph, organization_store}
use zhongshu.Runner.Versions.{
  IsTrimmed, organization_store-IsStore, save_graph_cas_exclusive, load-delete_graph,
}

abbrev Memory : Type 0
Memory = Option (ExecutionGraphCheckpoint × ℕ)

abbrev memory_version : Memory → ℕ
memory_version none = 0
memory_version (some (c, version)) = version

unfoldable memory_save : ExecutionGraphCheckpoint → ℕ → Memory → Result StoreFault ℕ × Memory
memory_save c expected s =
    if eqb (memory_version s) expected
    then (ok (expected + 1), some (c, expected + 1))
    else (err (refused (version_conflict expected (memory_version s))), s)

abbrev memory : Store Memory
memory = record {
  save_graph_cas = memory_save;
  load_graph = λ task_id s. elim s [
    | none ↦ ok none
    | some (c, version) ↦
        if c.graph.task_id == task_id
        then ok (some (record { version = version; checkpoint = c; updated_at = 0 }))
        else ok none
  ];
}

abbrev AnyTask : String → Type 0
AnyTask task_id = Unit

memory-IsStore : IsStore memory AnyTask
unfolding memory_save
memory-IsStore = record {
  saved = λ c expected version s t fit e. (0, ground (arith, e));
  unsaved = λ c expected x s t e. ground (arith, e);
}

abbrev task : ExecutionGraph
task = (add_node (pending_node "a" work "search") (empty_graph "task")).1

task-HasIds : HasIds task
task-HasIds =
    Steps-HasIds (next here (adds_node (pending_node "a" work "search") refl))
      (record { sorted = tt; keyed = tt })

abbrev run : Run Memory
run = record { graph = task; store_version = 0; store = none }

Call-IsKept_example : IsKept memory AnyTask run (admit_node memory "a" run)
Call-IsKept_example = Call-IsKept memory AnyTask memory-IsStore (admits "a") task-HasIds tt

-- A handler that counts its calls.
abbrev handler : ExecutionNode → Memory → ℕ → NodeExecutionOutcome × ℕ
handler n s w = (NodeExecutionOutcome.succeeded [], w + 1)

execute_node_admits_example :
    IsNotRun memory AnyTask memory-IsStore handler "a" run 0 (execute_node memory handler "a" run 0)
    ⊎ ((s : Run Memory) × IsRun memory AnyTask memory-IsStore handler "a" s 0
          (execute_node memory handler "a" run 0))
execute_node_admits_example =
    execute_node_admits memory AnyTask memory-IsStore handler "a" run 0 task-HasIds tt

-- A serializer for graphs without nodes.
is_none {ℓ} : {A : Type ℓ} → List A → Bool
is_none [] = true
is_none (x ∷ xs) = false

is_bare : ExecutionGraphCheckpoint → Bool
unfolding is_none
is_bare c =
    eqb c.schema_version 1
    && is_none c.graph.nodes
    && is_none c.graph.edges
    && is_none c.graph.artifacts
    && is_none c.graph.transitions
    && is_none c.graph.reconciliations
    && is_none c.graph.effect_intents

encode : ExecutionGraphCheckpoint → Result String String
unfolding is_bare
encode c = if is_bare c then ok c.graph.task_id else err "no bare graph"

decode : String → Result String ExecutionGraphCheckpoint
decode task_id = ok (record {
  schema_version = 1;
  graph = record {
    task_id = task_id;
    nodes = [];
    edges = [];
    artifacts = [];
    transitions = [];
    reconciliations = [];
    effect_intents = [];
  };
})

decode-encode : (c : ExecutionGraphCheckpoint) (x : String) → encode c ≡ ok x → decode x ≡ ok c
unfolding encode decode is_bare is_none
decode-encode c x e = ground (arith, e)

organization_store-IsStore_example : IsStore (organization_store encode decode) IsTrimmed
organization_store-IsStore_example = organization_store-IsStore encode decode decode-encode

abbrev database : Database
database = record { rows = []; now = 7; failure = none }

abbrev bare : ExecutionGraphCheckpoint
bare = checkpoint (empty_graph "task")

first_save :
    save_graph_cas encode decode bare 0 database
    ≡ (ok 1, (save_graph_cas encode decode bare 0 database).1)
unfolding save_graph_cas encode decode is_bare checkpoint snapshot values lookup String-discrete
first_save = refl

save_graph_cas_exclusive_example :
    (0 + 1 ≡ 0 + 1)
    × ((other : ℕ) (u : Database)
        → ¬ (
            save_graph_cas encode decode bare 0 (save_graph_cas encode decode bare 0 database).1
            ≡ (ok other, u)))
save_graph_cas_exclusive_example =
    save_graph_cas_exclusive encode decode bare bare 0 1 database
      (save_graph_cas encode decode bare 0 database).1 refl first_save

abbrev full : Database
full = (save_graph_cas encode decode bare 0 database).1

first_calm : full.failure ≡ none
unfolding save_graph_cas encode decode is_bare checkpoint snapshot values lookup String-discrete
first_calm = refl

load-delete_graph_example :
    load_graph encode decode "other" (delete_graph encode decode "task" full).1
    ≡ (if "task" == "other" then ok none else load_graph encode decode "other" full)
load-delete_graph_example = load-delete_graph encode decode "task" "other" full first_calm
