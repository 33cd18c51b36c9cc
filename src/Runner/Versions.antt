-- ===== src/Runner/Versions.antt =====
-- What `OrganizationCheckpointStore` promises the runner, and what its versions do.
use zhongshu.Prelude.{
  [], ◌∷◌, if◌then◌else◌, ◌==◌, inl, inr, String, ℕ, ◌+◌, none, Result, ok, err, ◌≡◌, arith,
  Option-cases, Result-cases,
}
use zhongshu.OrderedMap.{Map, lookup, insert}
use zhongshu.OrderedMap.Laws.{lookup-insert_self}
use zhongshu.Execution.Types.{ExecutionGraphCheckpoint}
use zhongshu.Runner.Store.{IsStore, Holds, refused, ExecutionGraphStoreError}
use zhongshu.Runner.Table.{
  without_row, delete_graph, Database, Row, trim, version_of, save_row, save_encoded,
  save_graph_cas, decode_row, load_row, load_graph, organization_store,
  checkpoint_is_clean_terminal,
}

-- A task id that `trim` leaves as it is.
abbrev pub IsTrimmed : String → Type 0
IsTrimmed task_id = trim task_id ≡ task_id

module _ (encode : ExecutionGraphCheckpoint → Result String String)
    (decode : String → Result String ExecutionGraphCheckpoint) where
  abbrev row_of : ExecutionGraphCheckpoint → String → ℕ → Database → Row
  row_of c encoded expected db = record {
    version = expected + 1;
    encoded = encoded;
    clean_terminal = checkpoint_is_clean_terminal c;
    updated_at = db.now;
  }

  -- What a save that succeeds has done.
  record IsSaved (c : ExecutionGraphCheckpoint) (expected version : ℕ) (db t : Database)
      : Type 0 where
    encoded : String
    is_encoded : encode c ≡ ok encoded
    no_failure : db.failure ≡ none
    version_is : version ≡ expected + 1
    was_expected : version_of (lookup (trim c.graph.task_id) db.rows) ≡ expected
    table_is :
        t
        ≡ record db { rows = insert (trim c.graph.task_id) (row_of c encoded expected db) db.rows }

  save_IsSaved :
      (c : ExecutionGraphCheckpoint) (expected version : ℕ) (db t : Database)
      → save_graph_cas encode decode c expected db ≡ (ok version, t)
      → IsSaved c expected version db t
  unfolding save_graph_cas save_encoded save_row
  save_IsSaved c expected version db t e = elim (Result-cases (encode c)) [
    | inr (x, f) ↦ absurd (ground (arith, e, f))
    | inl (encoded, f) ↦ elim (Option-cases db.failure) [
      | inr (x, g) ↦ absurd (ground (arith, e, f, g))
      | inl g ↦ record {
        encoded = encoded;
        is_encoded = f;
        no_failure = g;
        version_is = ground (arith, e, f, g);
        was_expected = ground (arith, e, f, g);
        table_is = ground (arith, e, f, g);
      }
    ]
  ]

  save_refused :
      (c : ExecutionGraphCheckpoint) (expected : ℕ) (x : ExecutionGraphStoreError) (db t : Database)
      → save_graph_cas encode decode c expected db ≡ (err (refused x), t)
      → t ≡ db
  unfolding save_graph_cas save_encoded save_row
  save_refused c expected x db t e = ground (arith, e)

  saved_is_held :
      (c : ExecutionGraphCheckpoint) (expected version : ℕ) (db t : Database)
      → ((x : String) → encode c ≡ ok x → decode x ≡ ok c)
      → IsTrimmed c.graph.task_id
      → IsSaved c expected version db t
      → Holds (organization_store encode decode) t c version
  unfolding load_graph load_row decode_row
  saved_is_held c expected version db t decodes trimmed h = (
    db.now,
    ground (
      arith,
      h.table_is,
      h.version_is,
      h.no_failure,
      trimmed,
      decodes h.encoded h.is_encoded,
      lookup-insert_self (trim c.graph.task_id) (row_of c h.encoded expected db) db.rows,
    ),
  )

  -- `OrganizationCheckpointStore` is a store as the runner needs it, for the task ids without white
  -- space at their ends, if what the serializer writes it reads back.
  pub organization_store-IsStore :
      ((c : ExecutionGraphCheckpoint) (x : String) → encode c ≡ ok x → decode x ≡ ok c)
      → IsStore (organization_store encode decode) IsTrimmed
  organization_store-IsStore decodes = record {
    saved = λ c expected version s t trimmed e.
        saved_is_held c expected version s t (decodes c) trimmed
          (save_IsSaved c expected version s t e);
    unsaved = λ c expected x s t e. save_refused c expected x s t e;
  }

  -- Of two writers that expect the same version of a task, one at most is served: once a save has
  -- succeeded, the version is one more, and a save that still expects the old one does not succeed.
  pub save_graph_cas_exclusive :
      (c d : ExecutionGraphCheckpoint) (expected version : ℕ) (db t : Database)
      → trim d.graph.task_id ≡ trim c.graph.task_id
      → save_graph_cas encode decode c expected db ≡ (ok version, t)
      → (version ≡ expected + 1)
        × ((other : ℕ) (u : Database)
            → ¬ (save_graph_cas encode decode d expected t ≡ (ok other, u)))
  unfolding version_of
  save_graph_cas_exclusive c d expected version db t same e =
      let h = save_IsSaved c expected version db t e in
      (
        h.version_is,
        λ other u f.
            let k = save_IsSaved d expected other t u f in
            ground (
              arith,
              h.table_is,
              k.was_expected,
              same,
              lookup-insert_self (trim c.graph.task_id) (row_of c h.encoded expected db) db.rows,
            ),
      )

  lookup-without_row :
      (task_id other : String) (rows : Map Row)
      → lookup other (without_row encode decode task_id rows)
        ≡ (if task_id == other then none else lookup other rows)
  unfolding lookup without_row
  lookup-without_row task_id other [] = ground arith
  lookup-without_row task_id other (entry ∷ rows) =
      let (key, row) = entry in ground (arith, lookup-without_row task_id other rows)

  -- Unless the database fails, a graph that is deleted is not found any more, and every other graph is
  -- found as it was before.
  pub load-delete_graph :
      (task_id other : String) (db : Database)
      → db.failure ≡ none
      → load_graph encode decode other (delete_graph encode decode task_id db).1
        ≡ (if task_id == other then ok none else load_graph encode decode other db)
  unfolding delete_graph load_graph load_row
  load-delete_graph task_id other db calm =
      ground (arith, calm, lookup-without_row task_id other db.rows)
