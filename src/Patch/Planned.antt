-- ===== src/Patch/Planned.antt =====
-- What a plan says of the files.
use zhongshu.Prelude.{
  ℕ, Bool, List, [], ◌∷◌, Option, none, some, Option-cases, Result, ok, Result-cases, ◌≡◌, refl,
  sym, ap, subst, ◌∙◌, arith, inl, inr, Bool-cases,
}
use zhongshu.Prelude.Codes.{Codes}
use zhongshu.Permission.Paths.{FilePath, path_eq}
use zhongshu.Permission.Entries.{path_eq_sound}
use zhongshu.Patch.Types.{PatchOperation, PatchError}
use zhongshu.Patch.Encoding.{Codec}
use zhongshu.Patch.Engine.{Disk, PatchEngine, put, resolve_workspace_path}
use zhongshu.Patch.Plan.{
  VirtualFile, Files, PatchFileEffectPlan, operation_path, simulate, initial_file, open_file,
  plan_one, plan_loop, effect_plan, all_plans, plan_operations,
}
use zhongshu.Patch.Opened.{
  Made, no_more, elsewhere, edited, StartsAt, Begins, SameRules, edit_file_makes, open_start,
  read_file_rules, resolve_rules,
}

module _ (codec : Codec) (components : Codes → FilePath) (is_unc : Codes → Bool) (disk : Disk) where
  initial_rules :
      (operation : PatchOperation) (resolved : FilePath) (engine : PatchEngine)
      → SameRules codec components is_unc disk engine
          (initial_file codec components is_unc disk operation resolved engine).1
  unfolding initial_file
  initial_rules operation resolved engine =
      let (root, limit) =
        read_file_rules codec components is_unc disk (operation_path operation) engine in
      (ground (arith, root), ground (arith, limit))

  plan_one_rules :
      (operation : PatchOperation) (files : Files) (engine : PatchEngine)
      → SameRules codec components is_unc disk engine
          (plan_one codec components is_unc disk operation files engine).1
  unfolding plan_one open_file
  plan_one_rules operation files engine =
      elim (Result-cases
        (resolve_workspace_path codec components is_unc engine (operation_path operation))) [
          | inr (x, e) ↦ rw (plan_one, e) (refl, refl)
          | inl (resolved, e) ↦ elim (Option-cases (files resolved)) [
            | inl f ↦ rw (plan_one, e, open_file, f) (initial_rules operation resolved engine)
            | inr (old, f) ↦ rw (plan_one, e, open_file, f) (refl, refl)
          ]
        ]

  -- One operation opens the file at its path and puts it back with the text that it makes.
  plan_one_makes :
      (operation : PatchOperation) (files next : Files) (engine : PatchEngine)
      → (plan_one codec components is_unc disk operation files engine).0 ≡ ok next
      → (resolved : FilePath) × (file : VirtualFile) × (updated : Codes) × (resolve_workspace_path
            codec components is_unc engine
            (operation_path operation)
          ≡ ok resolved)
        × Begins codec components is_unc disk engine.max_file_bytes resolved (files resolved) file
        × (simulate operation file ≡ ok updated)
        × (put resolved (record file { current = updated }) files ≡ next)
  unfolding plan_one
  plan_one_makes operation files next engine h =
      elim (Result-cases
        (resolve_workspace_path codec components is_unc engine (operation_path operation))) [
          | inr (x, e) ↦ absurd (ground (arith, h, e))
          | inl (resolved, e) ↦
              let (file, updated, opened, f, k) =
                edit_file_makes codec components is_unc disk operation resolved files next
                  (open_file codec components is_unc disk operation resolved files engine).0
                  (rw (plan_one, e) at h) in
              (
                resolved,
                file,
                updated,
                e,
                open_start codec components is_unc disk operation resolved files engine file e
                    opened,
                f,
                k,
              )
        ]

  -- One operation, seen from one path, before the operations after it.
  add_operation :
      (resolves : Codes → Result PatchError FilePath) (limit : ℕ) (operation : PatchOperation)
      (operations : List PatchOperation) (files next : Files) (path resolved : FilePath)
      (file last : VirtualFile) (updated : Codes)
      → resolves (operation_path operation) ≡ ok resolved
      → Begins codec components is_unc disk limit resolved (files resolved) file
      → simulate operation file ≡ ok updated
      → put resolved (record file { current = updated }) files ≡ next
      → (first : VirtualFile) × Begins codec components is_unc disk limit path (next path) first
        × Made resolves path operations first last
      → (first : VirtualFile) × Begins codec components is_unc disk limit path (files path) first
        × Made resolves path (operation ∷ operations) first last
  unfolding put
  add_operation resolves limit operation operations files next path resolved file last updated e
        begins f k (first, now, made) =
      let found : put resolved (record file { current = updated }) files path ≡ next path =
        ap (λ g. g path) k in
      elim (Bool-cases (path_eq resolved path)) [
        | inr other ↦
            let kept : next path ≡ files path = ground (arith, found, other) in
            (
              first,
              subst (λ o. Begins codec components is_unc disk limit path o first) kept now,
              elsewhere resolved e other made,
            )
        | inl same_path ↦
            let here : resolved ≡ path = path_eq_sound resolved path same_path in
            let after : VirtualFile = record file { current = updated } in
            let there : next path ≡ some after = ground (arith, found, same_path) in
            let is_after : first ≡ after =
              subst (λ o. Begins codec components is_unc disk limit path o first) there now in
            (
              file,
              subst (λ p. Begins codec components is_unc disk limit p (files p) file) here begins,
              edited updated (e ∙ ap ok here) f
                  (subst (λ g. Made resolves path operations g last) is_after made),
            )
      ]

  plan_loop-Made :
      (engine : PatchEngine) (operations : List PatchOperation) (files next : Files)
      (now : PatchEngine) (path : FilePath) (last : VirtualFile)
      → SameRules codec components is_unc disk engine now
      → (plan_loop codec components is_unc disk operations files now).0 ≡ ok next
      → next path ≡ some last
      → (first : VirtualFile) × Begins codec components is_unc disk engine.max_file_bytes path
          (files path)
          first
        × Made (resolve_workspace_path codec components is_unc engine) path operations first last
  unfolding plan_loop
  plan_loop-Made engine [] files next now path last rules h found =
      let e : next ≡ files = ground (arith, h) in
      (
        last,
        subst (λ o. Begins codec components is_unc disk engine.max_file_bytes path o last)
            (sym found ∙ ap (λ f. f path) e) refl,
        no_more last,
      )
  plan_loop-Made engine (operation ∷ operations) files next now path last (root, limit) h found =
      elim (Result-cases (plan_one codec components is_unc disk operation files now).0) [
        | inr (x, e) ↦ absurd (ground (arith, h, e))
        | inl (then_files, e) ↦
            let (resolved, file, updated, r, begins, f, k) =
              plan_one_makes operation files then_files now e in
            let (next_root, next_limit) = plan_one_rules operation files now in
            add_operation (resolve_workspace_path codec components is_unc engine)
              engine.max_file_bytes operation operations files then_files path resolved file last
              updated
              (sym (
                  resolve_rules codec components is_unc disk engine now (operation_path operation)
                    (root, limit))
                ∙ r)
              (subst (λ n. Begins codec components is_unc disk n resolved (files resolved) file)
                limit begins)
              f k
              (plan_loop-Made engine operations then_files next
                (plan_one codec components is_unc disk operation files now).1 path last
                (next_root ∙ root, next_limit ∙ limit) (rw (plan_loop, e) at h) found)
      ]

  -- Operations keep the text before, and whether there was a file.
  before_kept :
      (resolves : Codes → Result PatchError FilePath) (path : FilePath)
      (operations : List PatchOperation) (first last : VirtualFile)
      → Made resolves path operations first last
      → (last.before ≡ first.before) × (last.existed_before ≡ first.existed_before)
  before_kept resolves path [] first last (no_more _) = (refl, refl)
  before_kept resolves path (operation ∷ operations) first last (elsewhere resolved e f made) =
      before_kept resolves path operations first last made
  before_kept resolves path (operation ∷ operations) first last (edited updated e f made) =
      before_kept resolves path operations (record first { current = updated }) last made

  -- If `plan_operations` gives plans, then each plan is of a file, at a path, that starts from what the
  -- disk holds there, or from nothing where nothing is, and of what the operations on that path make of
  -- it in their order, all of which succeed; all operations are in the workspace. The plan has the hashes
  -- of the texts before and after, and says whether the file existed.
  pub plan_operations-Made {ℓ} :
      {Hash : Type ℓ} (hash : Codes → Hash) (operations : List PatchOperation)
      (engine : PatchEngine) (plans : FilePath → Option (PatchFileEffectPlan Hash))
      (path : FilePath) (plan : PatchFileEffectPlan Hash)
      → (plan_operations codec components is_unc disk hash operations engine).0 ≡ ok plans
      → plans path ≡ some plan
      → (first : VirtualFile) × (last : VirtualFile) × StartsAt codec components is_unc disk
          engine.max_file_bytes path first
        × Made (resolve_workspace_path codec components is_unc engine) path operations first last
        × (plan.before_hash ≡ hash first.before)
        × (plan.after_hash ≡ hash last.current)
        × (plan.existed_before ≡ first.existed_before)
  unfolding plan_operations all_plans effect_plan
  plan_operations-Made {Hash} hash operations engine plans path plan h found =
      elim (Result-cases (plan_loop codec components is_unc disk operations (λ p. none) engine).0) [
        | inr (x, e) ↦ absurd (ground (arith, h, e))
        | inl (files, e) ↦
            let made : FilePath → Option (PatchFileEffectPlan Hash) =
              λ p. effect_plan codec components is_unc disk hash (files p) in
            let same_plans : made ≡ plans = ground (arith, h, e) in
            let here : made path ≡ some plan = ap (λ f. f path) same_plans ∙ found in
            elim (Option-cases (files path)) [
              | inl f ↦ absurd (ground (arith, here, f))
              | inr (last, f) ↦
                  let (first, start, steps) =
                    plan_loop-Made engine operations (λ p. none) files engine path last (refl, refl)
                      e f in
                  let (before, existed) =
                    before_kept (resolve_workspace_path codec components is_unc engine) path
                      operations first last steps in
                  (
                    first,
                    last,
                    start,
                    steps,
                    ground (arith, here, f, before),
                    ground (arith, here, f),
                    ground (arith, here, f, existed),
                  )
            ]
      ]
