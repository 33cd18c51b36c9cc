-- ===== src/Permission/Paths.antt =====
-- zhongshu-core/src/equipment/permission.rs: `path_allowed`. A path is the list of its components;
-- `Path::components` and `std::fs::canonicalize` are parameters, and so is the current directory.
-- This is the code on Unix, where no path has a prefix.
use zhongshu.Prelude.{
  Bool, true, false, ◌&&◌, ◌||◌, List, [], ◌∷◌, ◌++◌, Option, none, some, any, if◌then◌else◌,
}
use zhongshu.Prelude.Codes.{Codes, same}

pub data Component : Type 0 where
  root_dir cur_dir parent_dir : Component
  normal : Codes → Component

abbrev pub FilePath : Type 0
FilePath = List Component

unfoldable pub component_eq : Component → Component → Bool
unfolding same
component_eq Component.root_dir Component.root_dir = true
component_eq Component.cur_dir Component.cur_dir = true
component_eq Component.parent_dir Component.parent_dir = true
component_eq (Component.normal s) (Component.normal t) = same s t
component_eq _ _ = false

-- `Path::starts_with`.
unfoldable pub path_starts_with : FilePath → FilePath → Bool
unfolding component_eq
path_starts_with p [] = true
path_starts_with [] (d ∷ q) = false
path_starts_with (c ∷ p) (d ∷ q) = component_eq c d && path_starts_with p q

unfoldable pub path_eq : FilePath → FilePath → Bool
unfolding component_eq
path_eq [] [] = true
path_eq [] (d ∷ q) = false
path_eq (c ∷ p) [] = false
path_eq (c ∷ p) (d ∷ q) = component_eq c d && path_eq p q

-- `PathBuf::pop`: the root and a prefix stay.
unfoldable pub pop : FilePath → FilePath
pop [] = []
pop (Component.root_dir ∷ []) = Component.root_dir ∷ []
pop (c ∷ []) = []
pop (c ∷ d ∷ p) = c ∷ pop (d ∷ p)

unfoldable pub is_absolute : FilePath → Bool
is_absolute [] = false
is_absolute (Component.root_dir ∷ p) = true
is_absolute (c ∷ p) = false

-- `PathBuf::push`: an absolute path takes the place of what was there.
unfoldable pub push_component : FilePath → Component → FilePath
push_component p Component.root_dir = Component.root_dir ∷ []
push_component p c = p ++ c ∷ []

-- The loop of `normalize_path`.
unfoldable pub normalize_loop : FilePath → FilePath → FilePath
unfolding pop push_component
normalize_loop normalized [] = normalized
normalize_loop normalized (Component.cur_dir ∷ p) = normalize_loop normalized p
normalize_loop normalized (Component.parent_dir ∷ p) = normalize_loop (pop normalized) p
normalize_loop normalized (Component.normal s ∷ p) =
    normalize_loop (normalized ++ Component.normal s ∷ []) p
normalize_loop normalized (Component.root_dir ∷ p) =
    normalize_loop (push_component normalized Component.root_dir) p

unfoldable pub normalize_path : FilePath → FilePath → FilePath
unfolding normalize_loop is_absolute
normalize_path current_dir path = normalize_loop (if is_absolute path then [] else current_dir) path

unfoldable pub reverse_path : FilePath → FilePath → FilePath
reverse_path [] q = q
reverse_path (c ∷ p) q = reverse_path p (c ∷ q)

-- A path, its last component first.
abbrev pub backwards : FilePath → FilePath
backwards p = reverse_path p []

-- `file_name` in front of the suffix.
unfoldable pub with_name : Component → FilePath → FilePath
with_name (Component.normal s) suffix = Component.normal s ∷ suffix
with_name c suffix = suffix

unfoldable pub is_root : Component → Bool
is_root Component.root_dir = true
is_root c = false

module _ (canonicalize : FilePath → Option FilePath) where
  -- The loop of `resolve_path_for_permission`: the cursor, its last component first, and the suffix.
  unfoldable pub resolve_loop : FilePath → FilePath → Option FilePath
  unfolding reverse_path with_name is_root
  resolve_loop [] suffix = elim (canonicalize []) [
    | none ↦ none
    | some found ↦ some (found ++ suffix)
  ]
  resolve_loop (c ∷ above) suffix =
      let rest = resolve_loop above (with_name c suffix) in
      elim (canonicalize (backwards (c ∷ above))) [
        | none ↦ if is_root c then none else rest
        | some found ↦ some (found ++ suffix)
      ]

  unfoldable pub resolve : FilePath → FilePath
  unfolding resolve_loop
  resolve normalized = elim (canonicalize normalized) [
    | some found ↦ found
    | none ↦ elim (resolve_loop (backwards normalized) []) [
      | some found ↦ found
      | none ↦ normalized
    ]
  ]

  module _ (components : Codes → FilePath) (current_dir : FilePath) where
    unfoldable pub resolve_path_for_permission : Codes → FilePath
    unfolding resolve normalize_path
    resolve_path_for_permission path = resolve (normalize_path current_dir (components path))

    unfoldable pub path_allowed : Codes → List Codes → Bool
    unfolding resolve_path_for_permission path_eq path_starts_with any
    path_allowed requested_path allowed_paths =
        let requested = resolve_path_for_permission requested_path in
        any
          (λ allowed.
            path_eq requested (resolve_path_for_permission allowed)
            || path_starts_with requested (resolve_path_for_permission allowed))
          allowed_paths
