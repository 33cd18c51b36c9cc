-- ===== src/Patch/Engine.antt =====
-- zhongshu-core/src/patch/mod.rs: `PatchEngine`. The disk is part of the state: what a file holds, which
-- directories there are, and which paths can be written. Paths are those of Unix; their components and
-- whether they are UNC paths are parameters. What a preview shows, and the time of a file, are left out.
use zhongshu.Prelude.{
  ℕ, Bool, true, false, not, ◌||◌, [], ◌++◌, Option, none, some, Result, ok, err, ◌>>=◌, ◌>>◌,
  ensure, ok_or, if◌then◌else◌, ltb, length,
}
use zhongshu.Prelude.Codes.{Codes, same, is_nothing}
use zhongshu.Permission.Paths.{
  FilePath, path_eq, path_starts_with, is_absolute, normalize_loop, pop,
}
use zhongshu.Patch.Types.{
  TextEncoding, utf8, LineEnding, ReplaceRequest, MultiReplaceRequest, WholeFileRequest,
  PatchOperation, PatchError, outside_workspace, unsafe_path, file_not_read, binary_file,
  read_failed, write_failed, decode_failed, parent_directory_missing, stale_read, no_op,
  file_too_large,
}
use zhongshu.Patch.Replace.{apply_replace, apply_multi_replace}
use zhongshu.Patch.Encoding.{
  Bytes, has_zero, Codec, detect_encoding, decode_text, detect_ending, with_endings, encode,
}

pub record FileSnapshot : Type 0 where
  pub path : FilePath
  pub content : Codes
  pub encoding : TextEncoding
  pub line_ending : LineEnding

pub record PatchPreview : Type 0 where
  pub path : FilePath
  pub original_content : Codes
  pub updated_content : Codes
  pub encoding : TextEncoding
  pub line_ending : LineEnding

pub record Disk : Type 0 where
  pub file : FilePath → Option Bytes
  pub is_dir : FilePath → Bool
  pub can_write : FilePath → Bool

pub record PatchEngine : Type 0 where
  pub workspace_root : FilePath
  pub reads : FilePath → Option FileSnapshot
  pub max_file_bytes : ℕ

-- `BTreeMap::insert`, and the writing of a file, at a path.
unfoldable pub put {ℓ} : {A : Type ℓ} → FilePath → A → (FilePath → Option A) → FilePath → Option A
put path a entries q = if path_eq path q then some a else entries q

abbrev pub is_there {ℓ} : {A : Type ℓ} → Option A → Bool
is_there none = false
is_there (some a) = true

unfoldable pub exists_at : Disk → FilePath → Bool
exists_at disk path = is_there (disk.file path) || disk.is_dir path

abbrev pub new_preview : FilePath → FileSnapshot → Codes → PatchPreview
new_preview path snapshot updated = record {
  path = path;
  original_content = snapshot.content;
  updated_content = updated;
  encoding = snapshot.encoding;
  line_ending = snapshot.line_ending;
}

abbrev pub or_else {ℓ} : {A : Type ℓ} → Option A → A → A
or_else none a = a
or_else (some b) a = b

-- The file that `preview_write_file` starts from where there is none.
abbrev pub new_file : FilePath → WholeFileRequest → FileSnapshot
new_file path request = record {
  path = path;
  content = [];
  encoding = or_else request.encoding utf8;
  line_ending = or_else request.line_ending (detect_ending request.content);
}

module _ (codec : Codec) (components : Codes → FilePath) (is_unc : Codes → Bool) where
  unfoldable pub resolve_workspace_path : PatchEngine → Codes → Result PatchError FilePath
  resolve_workspace_path engine path =
      let parts = components path in
      let joined : FilePath = if is_absolute parts then parts else engine.workspace_root ++ parts in
      let normalized : FilePath = normalize_loop [] joined in
      if is_unc path
      then err unsafe_path
      else if not (path_starts_with normalized engine.workspace_root)
      then err outside_workspace
      else ok normalized

  -- `read_snapshot` of the bytes of a file.
  unfoldable pub snapshot_of : ℕ → FilePath → Bytes → Result PatchError FileSnapshot
  snapshot_of limit path bytes = do
    ensure (not (ltb limit (length bytes))) (file_too_large (length bytes) limit)
    ensure (not (has_zero bytes)) binary_file
    content ← ok_or (decode_text codec bytes (detect_encoding bytes)) decode_failed
    ok (record {
      path = path;
      content = content;
      encoding = detect_encoding bytes;
      line_ending = detect_ending content;
    })

  unfoldable pub read_snapshot : ℕ → Disk → FilePath → Result PatchError FileSnapshot
  read_snapshot limit disk path = ok_or (disk.file path) read_failed >>= snapshot_of limit path

  unfoldable pub ensure_not_stale : PatchEngine → Disk → FileSnapshot → Result PatchError (Unit {0})
  ensure_not_stale engine disk snapshot = do
    current ← read_snapshot engine.max_file_bytes disk snapshot.path
    ensure (same current.content snapshot.content) stale_read

  -- A preview of an edit of a file that was read.
  unfoldable pub preview_edit :
      PatchEngine
      → Disk
      → Codes
      → (Codes → Result PatchError Codes)
      → Result PatchError PatchPreview
  preview_edit engine disk path edit = do
    resolved ← resolve_workspace_path engine path
    snapshot ← ok_or (engine.reads resolved) file_not_read
    ensure_not_stale engine disk snapshot
    updated ← edit snapshot.content
    ok (new_preview resolved snapshot updated)

  unfoldable pub preview_replace :
      PatchEngine → Disk → ReplaceRequest → Result PatchError PatchPreview
  preview_replace engine disk request =
      preview_edit engine disk request.path (λ s. apply_replace s request)

  unfoldable pub preview_multi_replace :
      PatchEngine → Disk → MultiReplaceRequest → Result PatchError PatchPreview
  preview_multi_replace engine disk request =
      preview_edit engine disk request.path (λ s. apply_multi_replace s request.edits)

  -- A file that was read is written anew.
  unfoldable pub preview_rewrite :
      PatchEngine
      → Disk
      → FilePath
      → FileSnapshot
      → WholeFileRequest
      → Result PatchError PatchPreview
  preview_rewrite engine disk path snapshot request = do
    ensure_not_stale engine disk snapshot
    ensure (not (same snapshot.content request.content)) no_op
    ok (new_preview path snapshot request.content)

  -- A file that was not read.
  unfoldable pub preview_create :
      Disk → FilePath → WholeFileRequest → Result PatchError PatchPreview
  preview_create disk path request = do
    ensure (not (exists_at disk path)) file_not_read
    ensure request.allow_create file_not_read
    ensure (exists_at disk (pop path)) parent_directory_missing
    ensure (not (is_nothing request.content)) no_op
    ok (new_preview path (new_file path request) request.content)

  unfoldable pub preview_resolved :
      PatchEngine → Disk → WholeFileRequest → FilePath → Result PatchError PatchPreview
  preview_resolved engine disk request path = elim (engine.reads path) [
    | some snapshot ↦ preview_rewrite engine disk path snapshot request
    | none ↦ preview_create disk path request
  ]

  unfoldable pub preview_write_file :
      PatchEngine → Disk → WholeFileRequest → Result PatchError PatchPreview
  preview_write_file engine disk request =
      resolve_workspace_path engine request.path >>= preview_resolved engine disk request

  unfoldable pub preview_operation :
      PatchEngine → Disk → PatchOperation → Result PatchError PatchPreview
  preview_operation engine disk (PatchOperation.replace request) =
      preview_replace engine disk request
  preview_operation engine disk (PatchOperation.multi_replace request) =
      preview_multi_replace engine disk request
  preview_operation engine disk (PatchOperation.write_file request) =
      preview_write_file engine disk request

  -- The file that a preview writes.
  unfoldable pub written : PatchPreview → Bytes
  written preview =
      encode codec preview.encoding (with_endings preview.line_ending preview.updated_content)

  unfoldable pub remember_snapshot :
      PatchEngine
      → FilePath
      → Result PatchError FileSnapshot
      → Result PatchError FileSnapshot × PatchEngine
  remember_snapshot engine path (ok snapshot) =
      (ok snapshot, record engine { reads = put path snapshot engine.reads })
  remember_snapshot engine path (err e) = (err e, engine)

  unfoldable pub apply_preview :
      PatchPreview → PatchEngine → Disk → (Result PatchError FileSnapshot × PatchEngine) × Disk
  apply_preview preview engine disk =
      let after : Disk = record disk { file = put preview.path (written preview) disk.file } in
      if not (disk.can_write preview.path) then ((err write_failed, engine), disk) else (
        remember_snapshot engine preview.path
            (read_snapshot engine.max_file_bytes after preview.path),
        after,
      )

  unfoldable pub apply_operation :
      PatchOperation → PatchEngine → Disk → (Result PatchError FileSnapshot × PatchEngine) × Disk
  apply_operation operation engine disk = elim (preview_operation engine disk operation) [
    | err e ↦ ((err e, engine), disk)
    | ok preview ↦ apply_preview preview engine disk
  ]

  -- `read`.
  unfoldable pub read_file :
      Codes → PatchEngine → Disk → Result PatchError FileSnapshot × PatchEngine
  read_file path engine disk = elim (resolve_workspace_path engine path) [
    | err e ↦ (err e, engine)
    | ok resolved ↦
        remember_snapshot engine resolved (read_snapshot engine.max_file_bytes disk resolved)
  ]
