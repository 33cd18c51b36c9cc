-- ===== src/Patch/Opened.antt =====
-- The files that a plan starts from, and what operations make of them.
use zhongshu.Prelude.{
  ℕ, Bool, true, false, List, [], ◌∷◌, Option, none, some, Option-cases, Result, ok, err,
  Result-cases, ◌≡◌, refl, sym, ap, subst, arith, ◌⊎◌, inl, inr, Bool-cases,
}
use zhongshu.Prelude.Codes.{Codes}
use zhongshu.Permission.Paths.{FilePath, path_eq}
use zhongshu.Patch.Types.{PatchOperation, PatchError}
use zhongshu.Patch.Encoding.{Codec}
use zhongshu.Patch.Engine.{
  FileSnapshot, Disk, PatchEngine, put, exists_at, resolve_workspace_path, read_snapshot,
  remember_snapshot, read_file,
}
use zhongshu.Patch.Applies.{remember_result}
use zhongshu.Patch.Plan.{
  VirtualFile, Files, operation_path, no_file, file_of_read, simulate, initial_file, open_file,
  edit_file,
}

-- What the operations on one path make of its file, in their order: each is in the workspace, one on
-- another path is passed over, and one on this path succeeds and changes the text.
pub data Made (resolves : Codes → Result PatchError FilePath) (path : FilePath)
    : List PatchOperation → VirtualFile → VirtualFile → Type 0 where
  no_more : (file : VirtualFile) → Made resolves path [] file file
  elsewhere :
      {operation : PatchOperation} {operations : List PatchOperation} {file last : VirtualFile}
      (resolved : FilePath)
      → resolves (operation_path operation) ≡ ok resolved
      → path_eq resolved path ≡ false
      → Made resolves path operations file last
      → Made resolves path (operation ∷ operations) file last
  edited :
      {operation : PatchOperation} {operations : List PatchOperation} {file last : VirtualFile}
      (updated : Codes)
      → resolves (operation_path operation) ≡ ok path
      → simulate operation file ≡ ok updated
      → Made resolves path operations (record file { current = updated }) last
      → Made resolves path (operation ∷ operations) file last

module _ (codec : Codec) (components : Codes → FilePath) (is_unc : Codes → Bool) (disk : Disk) where
  -- The text before is what the file holds, or there is no file; nothing was changed yet.
  abbrev pub StartsAt : ℕ → FilePath → VirtualFile → Type 0
  StartsAt limit path file =
      (file.current ≡ file.before)
      × (((file.existed_before ≡ true)
            × (snapshot : FileSnapshot) × (read_snapshot codec components is_unc limit disk path
                ≡ ok snapshot)
            × (file.before ≡ snapshot.content))
          ⊎ ((file.existed_before ≡ false) × (exists_at disk path ≡ false) × (file.before ≡ [])))

  -- The file that operations go on with, where the map has this for its path.
  abbrev pub Begins : ℕ → FilePath → Option VirtualFile → VirtualFile → Type 0
  Begins limit path (some known) file = file ≡ known
  Begins limit path none file = StartsAt limit path file

  pub edit_file_makes :
      (operation : PatchOperation) (resolved : FilePath) (files next : Files)
      (opened : Result PatchError VirtualFile)
      → edit_file codec components is_unc disk operation resolved files opened ≡ ok next
      → (file : VirtualFile) × (updated : Codes) × (opened ≡ ok file)
        × (simulate operation file ≡ ok updated)
        × (put resolved (record file { current = updated }) files ≡ next)
  unfolding edit_file
  edit_file_makes operation resolved files next (err e) h = absurd (ground (arith, h))
  edit_file_makes operation resolved files next (ok file) h =
      elim (Result-cases (simulate operation file)) [
        | inr (e, f) ↦ absurd (ground (arith, h, f))
        | inl (updated, f) ↦
            let made : Files = put resolved (record file { current = updated }) files in
            let e : made ≡ next = ground (arith, h, f) in (file, updated, refl, f, e)
      ]

  read_file_result :
      (path : Codes) (engine : PatchEngine) (resolved : FilePath)
      → resolve_workspace_path codec components is_unc engine path ≡ ok resolved
      → (read_file codec components is_unc path engine disk).0
        ≡ read_snapshot codec components is_unc engine.max_file_bytes disk resolved
  unfolding read_file
  read_file_result path engine resolved e =
      rw (read_file, e)
        (remember_result codec components is_unc engine resolved
          (read_snapshot codec components is_unc engine.max_file_bytes disk resolved))

  -- The second engine is the first with other reads.
  abbrev pub SameRules : PatchEngine → PatchEngine → Type 0
  SameRules engine next =
      (next.workspace_root ≡ engine.workspace_root) × (next.max_file_bytes ≡ engine.max_file_bytes)

  remember_rules :
      (engine : PatchEngine) (path : FilePath) (result : Result PatchError FileSnapshot)
      → SameRules engine (remember_snapshot codec components is_unc engine path result).1
  unfolding remember_snapshot
  remember_rules engine path (ok s) = (refl, refl)
  remember_rules engine path (err e) = (refl, refl)

  pub read_file_rules :
      (path : Codes) (engine : PatchEngine)
      → SameRules engine (read_file codec components is_unc path engine disk).1
  unfolding read_file
  read_file_rules path engine =
      elim (Result-cases (resolve_workspace_path codec components is_unc engine path)) [
        | inr (x, e) ↦ rw (read_file, e) (refl, refl)
        | inl (resolved, e) ↦
            rw (read_file, e)
              (remember_rules engine resolved
                (read_snapshot codec components is_unc engine.max_file_bytes disk resolved))
      ]

  pub resolve_rules :
      (engine next : PatchEngine) (path : Codes)
      → SameRules engine next
      → resolve_workspace_path codec components is_unc next path
        ≡ resolve_workspace_path codec components is_unc engine path
  unfolding resolve_workspace_path
  resolve_rules engine next path (root, limit) =
      ap
        (λ r.
          resolve_workspace_path codec components is_unc (record next { workspace_root = r }) path)
        root

  file_of_read_start :
      (limit : ℕ) (resolved : FilePath) (result : Result PatchError FileSnapshot)
      (file : VirtualFile)
      → result ≡ read_snapshot codec components is_unc limit disk resolved
      → file_of_read result ≡ ok file
      → StartsAt limit resolved file
  unfolding file_of_read
  file_of_read_start limit resolved (err x) file e h = absurd (ground (arith, h))
  file_of_read_start limit resolved (ok snapshot) file e h =
      let read : VirtualFile = record {
        before = snapshot.content;
        current = snapshot.content;
        existed_before = true;
      } in
      let same_file : read ≡ file = ground (arith, h) in
      subst (λ f. StartsAt limit resolved f) same_file (refl, inl (refl, snapshot, sym e, refl))

  initial_start :
      (operation : PatchOperation) (resolved : FilePath) (engine : PatchEngine) (file : VirtualFile)
      → resolve_workspace_path codec components is_unc engine (operation_path operation)
        ≡ ok resolved
      → (initial_file codec components is_unc disk operation resolved engine).0 ≡ ok file
      → StartsAt engine.max_file_bytes resolved file
  unfolding initial_file
  initial_start operation resolved engine file e h = elim (Bool-cases (exists_at disk resolved)) [
    | inl there ↦
        file_of_read_start engine.max_file_bytes resolved _ file
          (read_file_result (operation_path operation) engine resolved e)
          (rw (initial_file, there) at h)
    | inr free ↦
        let same_file : no_file ≡ file = ground (arith, h, free) in
        subst (λ f. StartsAt engine.max_file_bytes resolved f) same_file
          (refl, inr (refl, free, refl))
  ]

  pub open_start :
      (operation : PatchOperation) (resolved : FilePath) (files : Files) (engine : PatchEngine)
      (file : VirtualFile)
      → resolve_workspace_path codec components is_unc engine (operation_path operation)
        ≡ ok resolved
      → (open_file codec components is_unc disk operation resolved files engine).0 ≡ ok file
      → Begins engine.max_file_bytes resolved (files resolved) file
  unfolding open_file
  open_start operation resolved files engine file e h = elim (Option-cases (files resolved)) [
    | inl f ↦
        subst (λ o. Begins engine.max_file_bytes resolved o file) (sym f)
          (initial_start operation resolved engine file e (rw (open_file, f) at h))
    | inr (old, f) ↦
        let same_file : old ≡ file = ground (arith, h, f) in
        subst (λ o. Begins engine.max_file_bytes resolved o file) (sym f) (sym same_file)
  ]
