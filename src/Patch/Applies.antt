-- ===== src/Patch/Applies.antt =====
-- What `apply_operation` does to the disk.
use zhongshu.Prelude.{Bool, true, Result, ok, err, ◌≡◌, refl}
use zhongshu.Prelude.Codes.{Codes}
use zhongshu.Permission.Paths.{FilePath}
use zhongshu.Patch.Types.{PatchOperation, PatchError}
use zhongshu.Patch.Encoding.{Codec}
use zhongshu.Patch.Engine.{
  FileSnapshot, PatchPreview, Disk, PatchEngine, put, read_snapshot, written, remember_snapshot,
}
use zhongshu.Patch.Fresh.{IsEngine, IsFresh}

-- The disk with the file of a preview written.
abbrev pub with_file : Codec → (Codes → FilePath) → (Codes → Bool) → PatchPreview → Disk → Disk
with_file codec components is_unc preview disk = record disk {
  file = put preview.path (written codec components is_unc preview) disk.file;
}

-- What a call of `apply_operation` does: nothing but return an error; or it writes the file of a fresh
-- preview, and no other, and keeps its reads under their own paths.
pub data Applies (codec : Codec) (components : Codes → FilePath) (is_unc : Codes → Bool)
    (operation : PatchOperation) (engine : PatchEngine) (disk : Disk)
    : (Result PatchError FileSnapshot × PatchEngine) × Disk → Type 0 where
  refuses :
      (e : PatchError)
      → Applies codec components is_unc operation engine disk ((err e, engine), disk)
  writes :
      (preview : PatchPreview) (result : Result PatchError FileSnapshot) (next : PatchEngine)
      → IsFresh codec components is_unc engine disk operation preview
      → disk.can_write preview.path ≡ true
      → result
        ≡ read_snapshot codec components is_unc engine.max_file_bytes
            (with_file codec components is_unc preview disk)
            preview.path
      → IsEngine next
      → Applies codec components is_unc operation engine disk
          ((result, next), with_file codec components is_unc preview disk)

module _ (codec : Codec) (components : Codes → FilePath) (is_unc : Codes → Bool) where
  pub remember_result :
      (engine : PatchEngine) (path : FilePath) (result : Result PatchError FileSnapshot)
      → (remember_snapshot codec components is_unc engine path result).0 ≡ result
  unfolding remember_snapshot
  remember_result engine path (ok s) = refl
  remember_result engine path (err e) = refl
