-- ===== src/Patch/Plan.antt =====
-- zhongshu-core/src/patch/mod.rs: `plan_operations`, which makes a set of operations on texts in memory.
-- The map of files is a function of the path; the hash of a text (SHA-256) is a parameter.
use zhongshu.Prelude.{
  Bool, true, false, not, ◌&&◌, List, [], ◌∷◌, Option, none, some, Result, ok, err, if◌then◌else◌,
}
use zhongshu.Prelude.Codes.{Codes, same}
use zhongshu.Permission.Paths.{FilePath, pop}
use zhongshu.Patch.Types.{
  PatchOperation, PatchError, file_not_read, no_op, parent_directory_missing,
}
use zhongshu.Patch.Replace.{apply_replace, apply_multi_replace}
use zhongshu.Patch.Encoding.{Codec}
use zhongshu.Patch.Engine.{
  FileSnapshot, Disk, PatchEngine, put, exists_at, resolve_workspace_path, read_file,
}

pub record VirtualFile : Type 0 where
  pub before : Codes
  pub current : Codes
  pub existed_before : Bool

abbrev pub Files : Type 0
Files = FilePath → Option VirtualFile

pub record PatchFileEffectPlan {ℓ} (Hash : Type ℓ) : Type ℓ where
  pub before_hash : Hash
  pub after_hash : Hash
  pub existed_before : Bool

abbrev pub operation_path : PatchOperation → Codes
operation_path (PatchOperation.replace request) = request.path
operation_path (PatchOperation.multi_replace request) = request.path
operation_path (PatchOperation.write_file request) = request.path

unfoldable pub may_create : PatchOperation → Bool
may_create (PatchOperation.write_file request) = request.allow_create
may_create operation = false

abbrev pub no_file : VirtualFile
no_file = record { before = []; current = []; existed_before = false }

unfoldable pub file_of_read : Result PatchError FileSnapshot → Result PatchError VirtualFile
file_of_read (err e) = err e
file_of_read (ok snapshot) =
    ok (record { before = snapshot.content; current = snapshot.content; existed_before = true })

-- The text of a file after an operation on it.
unfoldable pub simulate : PatchOperation → VirtualFile → Result PatchError Codes
simulate (PatchOperation.replace request) file = apply_replace file.current request
simulate (PatchOperation.multi_replace request) file =
    apply_multi_replace file.current request.edits
simulate (PatchOperation.write_file request) file =
    if not file.existed_before && not request.allow_create
    then err file_not_read
    else if same file.current request.content
    then err no_op
    else ok request.content

module _ (codec : Codec) (components : Codes → FilePath) (is_unc : Codes → Bool) (disk : Disk) where
  -- The file that the first operation on a path starts from.
  unfoldable pub initial_file :
      PatchOperation → FilePath → PatchEngine → Result PatchError VirtualFile × PatchEngine
  initial_file operation resolved engine =
      if exists_at disk resolved
      then (
        file_of_read (read_file codec components is_unc (operation_path operation) engine disk).0,
        (read_file codec components is_unc (operation_path operation) engine disk).1,
      )
      else if not (may_create operation)
      then (err file_not_read, engine)
      else if not (exists_at disk (pop resolved))
      then (err parent_directory_missing, engine)
      else (ok no_file, engine)

  unfoldable pub open_file :
      PatchOperation → FilePath → Files → PatchEngine → Result PatchError VirtualFile × PatchEngine
  open_file operation resolved files engine = elim (files resolved) [
    | some file ↦ (ok file, engine)
    | none ↦ initial_file operation resolved engine
  ]

  -- The operation is made on the file that was opened.
  unfoldable pub edit_file :
      PatchOperation → FilePath → Files → Result PatchError VirtualFile → Result PatchError Files
  edit_file operation resolved files (err e) = err e
  edit_file operation resolved files (ok file) = elim (simulate operation file) [
    | err e ↦ err e
    | ok updated ↦ ok (put resolved (record file { current = updated }) files)
  ]

  unfoldable pub plan_one :
      PatchOperation → Files → PatchEngine → Result PatchError Files × PatchEngine
  plan_one operation files engine =
      elim (resolve_workspace_path codec components is_unc engine (operation_path operation)) [
        | err e ↦ (err e, engine)
        | ok resolved ↦ (
          edit_file operation resolved files (open_file operation resolved files engine).0,
          (open_file operation resolved files engine).1,
        )
      ]

  -- The loop over the operations.
  unfoldable pub plan_loop :
      List PatchOperation → Files → PatchEngine → Result PatchError Files × PatchEngine
  plan_loop [] files engine = (ok files, engine)
  plan_loop (operation ∷ operations) files engine = elim (plan_one operation files engine).0 [
    | err e ↦ (err e, (plan_one operation files engine).1)
    | ok next ↦ plan_loop operations next (plan_one operation files engine).1
  ]

  -- The plan of a file.
  unfoldable pub effect_plan {ℓ} :
      {Hash : Type ℓ} → (Codes → Hash) → Option VirtualFile → Option (PatchFileEffectPlan Hash)
  effect_plan hash none = none
  effect_plan hash (some file) = some (record {
    before_hash = hash file.before;
    after_hash = hash file.current;
    existed_before = file.existed_before;
  })

  unfoldable pub all_plans {ℓ} :
      {Hash : Type ℓ}
      → (Codes → Hash)
      → Result PatchError Files
      → Result PatchError (FilePath → Option (PatchFileEffectPlan Hash))
  all_plans hash (err e) = err e
  all_plans hash (ok files) = ok (λ p. effect_plan hash (files p))

  unfoldable pub plan_operations {ℓ} :
      {Hash : Type ℓ}
      → (Codes → Hash)
      → List PatchOperation
      → PatchEngine
      → Result PatchError (FilePath → Option (PatchFileEffectPlan Hash)) × PatchEngine
  plan_operations hash operations engine = (
    all_plans hash (plan_loop operations (λ p. none) engine).0,
    (plan_loop operations (λ p. none) engine).1,
  )
