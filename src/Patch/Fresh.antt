-- ===== src/Patch/Fresh.antt =====
-- The patch engine writes only what it has read, as it has read it.
use zhongshu.Prelude.{
  Bool, true, false, not, Option, none, some, Result, ok, err, Option-cases, ◌>>=◌, ensure, ok_or,
  ◌≡◌, refl, subst, arith, ◌⊎◌, inl, inr,
}
use zhongshu.Prelude.Codes.{Codes, same, is_nothing}
use zhongshu.Permission.Paths.{FilePath, path_starts_with, pop}
use zhongshu.Permission.Entries.{same_sound}
use zhongshu.Patch.Types.{
  ReplaceRequest, MultiReplaceRequest, WholeFileRequest, PatchOperation, PatchError,
}
use zhongshu.Patch.Replace.{apply_replace, apply_multi_replace}
use zhongshu.Patch.Plan.{operation_path}
use zhongshu.Patch.Encoding.{Codec}
use zhongshu.Patch.Engine.{
  FileSnapshot, PatchPreview, Disk, PatchEngine, exists_at, new_preview, new_file,
  resolve_workspace_path, read_snapshot, ensure_not_stale, preview_edit, preview_replace,
  preview_multi_replace, preview_rewrite, preview_create, preview_resolved, preview_write_file,
  preview_operation,
}

pub bind_ok_lem {ℓ κ} :
    {A : Type ℓ} {B : Type κ} (r : Result PatchError A) (f : A → Result PatchError B) (b : B)
    → (r >>= f) ≡ ok b
    → (a : A) × (r ≡ ok a) × (f a ≡ ok b)
bind_ok_lem (ok a) f b h = (a, refl, h)
bind_ok_lem (err e) f b h = absurd (ground (arith, h))

ensure_lem : (t : Bool) (e : PatchError) → ensure t e ≡ ok tt → t ≡ true
ensure_lem true e h = refl
ensure_lem false e h = absurd (ground (arith, h))

ok_or_lem {ℓ} : {A : Type ℓ} (o : Option A) (e : PatchError) (a : A) → ok_or o e ≡ ok a → o ≡ some a
ok_or_lem (some b) e a h = ground (arith, h)
ok_or_lem none e a h = absurd (ground (arith, h))

-- The reads of an engine are kept under their own paths.
abbrev pub IsEngine : PatchEngine → Type 0
IsEngine engine = (p : FilePath) (s : FileSnapshot) → engine.reads p ≡ some s → s.path ≡ p

-- The text that an operation makes of another.
pub data Makes : PatchOperation → Codes → Codes → Type 0 where
  by_replace :
      (request : ReplaceRequest) (content updated : Codes)
      → apply_replace content request ≡ ok updated
      → Makes (PatchOperation.replace request) content updated
  by_multi_replace :
      (request : MultiReplaceRequest) (content updated : Codes)
      → apply_multi_replace content request.edits ≡ ok updated
      → Makes (PatchOperation.multi_replace request) content updated
  by_write :
      (request : WholeFileRequest) (content : Codes)
      → same content request.content ≡ false
      → Makes (PatchOperation.write_file request) content request.content

module _ (codec : Codec) (components : Codes → FilePath) (is_unc : Codes → Bool)
    (engine : PatchEngine) (disk : Disk) where
  abbrev reading : FilePath → Result PatchError FileSnapshot
  reading path = read_snapshot codec components is_unc engine.max_file_bytes disk path

  -- The file was read, and holds the text now that it held then; of this text the operation makes the
  -- text of the preview, which keeps the encoding and the line endings.
  pub record Edits (operation : PatchOperation) (preview : PatchPreview) : Type 0 where
    pub snapshot : FileSnapshot
    pub was_read : engine.reads preview.path ≡ some snapshot
    pub current : FileSnapshot
    pub is_there_now : reading preview.path ≡ ok current
    pub unchanged : current.content ≡ snapshot.content
    pub original : preview.original_content ≡ snapshot.content
    pub makes : Makes operation snapshot.content preview.updated_content
    pub encoding : preview.encoding ≡ snapshot.encoding
    pub line_ending : preview.line_ending ≡ snapshot.line_ending

  -- There is nothing at the path, nothing was read there, and the operation is to create a file with the
  -- text of the preview.
  pub record Creates (operation : PatchOperation) (preview : PatchPreview) : Type 0 where
    pub request : WholeFileRequest
    pub is_write : operation ≡ PatchOperation.write_file request
    pub free : exists_at disk preview.path ≡ false
    pub not_read : engine.reads preview.path ≡ none
    pub allowed : request.allow_create ≡ true
    pub text : preview.updated_content ≡ request.content

  -- The preview is of the path of the operation, in the workspace.
  pub record IsFresh (operation : PatchOperation) (preview : PatchPreview) : Type 0 where
    pub named :
        resolve_workspace_path codec components is_unc engine (operation_path operation)
        ≡ ok preview.path
    pub inside : path_starts_with preview.path engine.workspace_root ≡ true
    pub start : Edits operation preview ⊎ Creates operation preview

  resolved_inside :
      (path : Codes) (resolved : FilePath)
      → resolve_workspace_path codec components is_unc engine path ≡ ok resolved
      → path_starts_with resolved engine.workspace_root ≡ true
  unfolding resolve_workspace_path
  resolved_inside path resolved h = ground (arith, h)

  not_stale :
      (snapshot : FileSnapshot)
      → ensure_not_stale codec components is_unc engine disk snapshot ≡ ok tt
      → (current : FileSnapshot) × (reading snapshot.path ≡ ok current)
        × (current.content ≡ snapshot.content)
  unfolding ensure_not_stale
  not_stale snapshot h =
      let (current, e, k) = bind_ok_lem (reading snapshot.path) _ tt h in
      (current, e, same_sound current.content snapshot.content (ensure_lem _ _ k))

  module _ (kept : IsEngine engine) where
    read_start :
        (operation : PatchOperation) (path : FilePath) (snapshot : FileSnapshot) (updated : Codes)
        → resolve_workspace_path codec components is_unc engine (operation_path operation) ≡ ok path
        → engine.reads path ≡ some snapshot
        → ensure_not_stale codec components is_unc engine disk snapshot ≡ ok tt
        → Makes operation snapshot.content updated
        → IsFresh operation (new_preview path snapshot updated)
    read_start operation path snapshot updated named found fresh makes =
        let (current, e, same_text) = not_stale snapshot fresh in
        record {
          named = named;
          inside = resolved_inside (operation_path operation) path named;
          start = inl (record {
            snapshot = snapshot;
            was_read = found;
            current = current;
            is_there_now = subst (λ p. reading p ≡ ok current) (kept path snapshot found) e;
            unchanged = same_text;
            original = refl;
            makes = makes;
            encoding = refl;
            line_ending = refl;
          });
        }

    preview_edit-IsFresh :
        (operation : PatchOperation) (edit : Codes → Result PatchError Codes)
        (preview : PatchPreview)
        → ((content updated : Codes) → edit content ≡ ok updated → Makes operation content updated)
        → preview_edit codec components is_unc engine disk (operation_path operation) edit
          ≡ ok preview
        → IsFresh operation preview
    unfolding preview_edit
    preview_edit-IsFresh operation edit preview makes h =
        let (resolved, e, h₁) =
          bind_ok_lem
            (resolve_workspace_path codec components is_unc engine (operation_path operation)) _
            preview h in
        let (snapshot, f, h₂) = bind_ok_lem (ok_or (engine.reads resolved) _) _ preview h₁ in
        let (done, g, h₃) =
          bind_ok_lem (ensure_not_stale codec components is_unc engine disk snapshot) _ preview
            h₂ in
        let (updated, k, h₄) = bind_ok_lem (edit snapshot.content) _ preview h₃ in
        subst (IsFresh operation) (ground (arith, h₄)) (
          read_start operation resolved snapshot updated e
            (ok_or_lem (engine.reads resolved) _ snapshot f) g (makes snapshot.content updated k))

    module _ (request : WholeFileRequest) (path : FilePath) (preview : PatchPreview)
        (named : resolve_workspace_path codec components is_unc engine request.path ≡ ok path) where
      rewrite-IsFresh :
          (snapshot : FileSnapshot)
          → engine.reads path ≡ some snapshot
          → preview_rewrite codec components is_unc engine disk path snapshot request ≡ ok preview
          → IsFresh (PatchOperation.write_file request) preview
      unfolding preview_rewrite
      rewrite-IsFresh snapshot found h =
          let (done, g, h₁) =
            bind_ok_lem (ensure_not_stale codec components is_unc engine disk snapshot) _ preview
              h in
          let (done', g', h₂) =
            bind_ok_lem (ensure (not (same snapshot.content request.content)) _) _ preview h₁ in
          subst (IsFresh (PatchOperation.write_file request)) (ground (arith, h₂)) (
            read_start (PatchOperation.write_file request) path snapshot request.content named found
              g (by_write request snapshot.content (ground (arith, ensure_lem _ _ g'))))

      create-IsFresh :
          engine.reads path ≡ none
          → preview_create codec components is_unc disk path request ≡ ok preview
          → IsFresh (PatchOperation.write_file request) preview
      unfolding preview_create
      create-IsFresh not_read h =
          let (u₁, g₁, h₁) = bind_ok_lem (ensure (not (exists_at disk path)) _) _ preview h in
          let (u₂, g₂, h₂) = bind_ok_lem (ensure request.allow_create _) _ preview h₁ in
          let (u₃, g₃, h₃) = bind_ok_lem (ensure (exists_at disk (pop path)) _) _ preview h₂ in
          let (u₄, g₄, h₄) =
            bind_ok_lem (ensure (not (is_nothing request.content)) _) _ preview h₃ in
          let made : PatchPreview = new_preview path (new_file path request) request.content in
          let e : made ≡ preview = ground (arith, h₄) in
          subst (IsFresh (PatchOperation.write_file request)) e (record {
            named = named;
            inside = resolved_inside request.path path named;
            start = inr (record {
              request = request;
              is_write = refl;
              free = ground (arith, ensure_lem _ _ g₁);
              not_read = not_read;
              allowed = ensure_lem _ _ g₂;
              text = refl;
            });
          })

    pub preview_operation-IsFresh :
        (operation : PatchOperation) (preview : PatchPreview)
        → preview_operation codec components is_unc engine disk operation ≡ ok preview
        → IsFresh operation preview
    unfolding preview_operation preview_replace preview_multi_replace preview_write_file
        preview_resolved
    preview_operation-IsFresh (PatchOperation.replace request) preview h =
        preview_edit-IsFresh (PatchOperation.replace request) _ preview (by_replace request) h
    preview_operation-IsFresh (PatchOperation.multi_replace request) preview h =
        preview_edit-IsFresh (PatchOperation.multi_replace request) _ preview
          (by_multi_replace request) h
    preview_operation-IsFresh (PatchOperation.write_file request) preview h =
        let (path, e, k) =
          bind_ok_lem (resolve_workspace_path codec components is_unc engine request.path) _ preview
            h in
        elim (Option-cases (engine.reads path)) [
          | inl f ↦ create-IsFresh request path preview e f (rw (f, preview_resolved) at k)
          | inr (snapshot, f) ↦
              rewrite-IsFresh request path preview e snapshot f (rw (f, preview_resolved) at k)
        ]
