-- ===== src/Runner/Table.antt =====
-- `OrganizationCheckpointStore`: the store over the table `organization_graph_checkpoints`. The rows
-- are a map from `task_id`; a call of the database may fail, and then its transaction is undone.
use zhongshu.Prelude.{
  String, ℕ, ◌+◌, Bool, true, false, not, ◌&&◌, List, [], ◌∷◌, Option, none, some, Result, ok, err,
  if◌then◌else◌, eqb, all, ◌==◌, is_whitespace, is_blank,
}
use Prim.Native.Char.{code}
use zhongshu.OrderedMap.{Map, lookup, insert}
use zhongshu.Execution.Types.{
  ExecutionGraphCheckpoint, ExecutionNode, recovery_required, is_terminal, state_eq,
  execution_graph_checkpoint_version,
}
use zhongshu.Runner.Store.{
  Store, StoreFault, refused, StoredExecutionGraphCheckpoint, database, serialization,
  version_conflict, unsupported_version, no_task_id,
}

pub record Row : Type 0 where
  pub version : ℕ
  pub encoded : String
  pub clean_terminal : Bool
  pub updated_at : ℕ

pub record Database : Type 0 where
  pub rows : Map Row
  pub now : ℕ
  pub failure : Option String

-- `str::trim`.
unfoldable pub trim_start : String → String
unfolding is_whitespace
trim_start String.[] = String.[]
trim_start (String.◌∷◌ c s) = if is_whitespace (code c) then trim_start s else (String.◌∷◌ c s)

unfoldable pub trim_end : String → String
unfolding is_blank
trim_end String.[] = String.[]
trim_end (String.◌∷◌ c s) =
    if is_blank (String.◌∷◌ c s) then String.[] else (String.◌∷◌ c (trim_end s))

unfoldable pub trim : String → String
unfolding trim_start trim_end
trim s = trim_end (trim_start s)

unfoldable pub is_no_node : List ExecutionNode → Bool
is_no_node [] = true
is_no_node (n ∷ nodes) = false

unfoldable pub checkpoint_is_clean_terminal : ExecutionGraphCheckpoint → Bool
unfolding is_no_node
checkpoint_is_clean_terminal c =
    not (is_no_node c.graph.nodes)
    && all (λ n. is_terminal n.state && not (state_eq n.state recovery_required)) c.graph.nodes

unfoldable pub version_of : Option Row → ℕ
version_of none = 0
version_of (some row) = row.version

-- `serde_json::to_string` and `from_str` are the parameters `encode` and `decode`.
module _ (encode : ExecutionGraphCheckpoint → Result String String)
    (decode : String → Result String ExecutionGraphCheckpoint) where
  -- The transaction.
  unfoldable pub save_row : String → String → Bool → ℕ → Database → Result StoreFault ℕ × Database
  unfolding version_of
  save_row task_id encoded clean_terminal expected db =
      let actual = version_of (lookup task_id db.rows) in
      if not (eqb actual expected)
      then (err (refused (version_conflict expected actual)), db)
      else (
        ok (actual + 1),
        record db {
          rows =
              insert task_id
                (record {
                  version = actual + 1;
                  encoded = encoded;
                  clean_terminal = clean_terminal;
                  updated_at = db.now;
                })
                db.rows;
        },
      )

  unfoldable pub save_encoded :
      ExecutionGraphCheckpoint
      → ℕ
      → Database
      → Result String String
      → Result StoreFault ℕ × Database
  unfolding save_row checkpoint_is_clean_terminal trim
  save_encoded c expected db (err e) = (err (refused (serialization e)), db)
  save_encoded c expected db (ok encoded) = elim db.failure [
    | some e ↦ (err (refused (database e)), db)
    | none ↦ save_row (trim c.graph.task_id) encoded (checkpoint_is_clean_terminal c) expected db
  ]

  unfoldable pub save_graph_cas :
      ExecutionGraphCheckpoint → ℕ → Database → Result StoreFault ℕ × Database
  unfolding save_encoded trim
  save_graph_cas c expected db =
      if trim c.graph.task_id == ""
      then (err (refused no_task_id), db)
      else if not (eqb c.schema_version execution_graph_checkpoint_version)
      then (err (refused (unsupported_version c.schema_version)), db)
      else save_encoded c expected db (encode c)

  abbrev Loaded : Type 0
  Loaded = Result StoreFault (Option StoredExecutionGraphCheckpoint)

  unfoldable pub decode_row : Row → Result String ExecutionGraphCheckpoint → Loaded
  decode_row row (err e) = err (refused (serialization e))
  decode_row row (ok c) =
      ok (some (record { version = row.version; checkpoint = c; updated_at = row.updated_at }))

  unfoldable pub load_row : Option Row → Loaded
  unfolding decode_row
  load_row none = ok none
  load_row (some row) = decode_row row (decode row.encoded)

  unfoldable pub load_graph : String → Database → Loaded
  unfolding load_row
  load_graph task_id db = elim db.failure [
    | some e ↦ err (refused (database e))
    | none ↦ load_row (lookup task_id db.rows)
  ]

  abbrev pub organization_store : Store Database
  organization_store = record { save_graph_cas = save_graph_cas; load_graph = load_graph }

  unfoldable pub without_row : String → Map Row → Map Row
  without_row task_id [] = []
  without_row task_id ((k, row) ∷ rows) =
      let rest = without_row task_id rows in if k == task_id then rest else (k, row) ∷ rest

  unfoldable pub delete_graph : String → Database → Result StoreFault (Unit {0}) × Database
  unfolding without_row
  delete_graph task_id db = elim db.failure [
    | some e ↦ (err (refused (database e)), db)
    | none ↦ (ok tt, record db { rows = without_row task_id db.rows })
  ]
