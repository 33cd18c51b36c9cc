-- ===== src/Permission/Examples.antt =====
-- Small permissions and calls, on which the theorems about the guard are put to use.
use zhongshu.Prelude.{
  String, ℕ, true, false, List, [], ◌∷◌, Option, none, some, ok, err, ◌⊎◌, inl, ◌↔◌, ◌≡◌, refl,
  if◌then◌else◌, any, String-discrete,
}
use zhongshu.Prelude.Codes.{Codes, codes, same}
use zhongshu.OrderedMap.{lookup}
use zhongshu.Permission.Types.{
  EquipmentPermissions, ToolEffect, ToolSpec, no_shell, other_command, Json,
}
use zhongshu.Permission.Paths.{Component, FilePath, is_absolute, normalize_path, path_allowed}
use zhongshu.Permission.Guard.{execute, member_text}
use zhongshu.Permission.Grants.{IsGranted, execute_iff}
use zhongshu.Permission.ShellCommands.{shell_object_refused}
use zhongshu.Permission.Normal.{IsClean, normalize_path-IsClean}

-- A text, or an object whose values are texts.
data Sample : Type 0 where
  text : Codes → Sample
  object : List (String × Codes) → Sample

abbrev text_of : Sample → Option Codes
text_of (text s) = some s
text_of (object fields) = none

abbrev as_text : Option Codes → Option Sample
as_text none = none
as_text (some s) = some (text s)

abbrev field : Sample → String → Option Sample
field (text s) key = none
field (object fields) key = as_text (lookup key fields)

field_no_str : (v w : Sample) (key : String) → field v key ≡ some w → text_of v ≡ none
field_no_str (text s) w key h = cc
field_no_str (object fields) w key h = refl

abbrev sample_json : Json
sample_json = record { Value = Sample; as_str = text_of; get = field; get_no_str = field_no_str }

abbrev only_git : EquipmentPermissions
only_git = record {
  shell = record { allowed = false; allowed_commands = codes "git" ∷ [] };
  network = record { allowed = true; allowed_hosts = codes "example.com" ∷ [] };
  filesystem = record { allowed = true; allowed_paths = codes "/a" ∷ []; write_allowed = false };
  browser = record { allowed = false };
}

abbrev shell_spec : ToolSpec
shell_spec = record { effect = ToolEffect.process; read_only = false; requires_approval = true }

-- The paths of the examples: `/a`, `/x` and `/a/link/../x`.
abbrev sample_components : Codes → FilePath
sample_components s =
    if same s (codes "/a")
    then Component.root_dir ∷ Component.normal (codes "a") ∷ []
    else if same s (codes "/x")
    then Component.root_dir ∷ Component.normal (codes "x") ∷ []
    else Component.root_dir
      ∷ Component.normal (codes "a")
      ∷ Component.normal (codes "link")
      ∷ Component.parent_dir
      ∷ Component.normal (codes "x")
      ∷ []

-- No file exists.
abbrev nothing_there : FilePath → Option FilePath
nothing_there p = none

abbrev no_url : Codes → Option Codes
no_url url = none

abbrev run_tool : Sample → ℕ
run_tool args = 0

abbrev git_status : Sample
git_status = object (("command", codes "git status") ∷ [])

execute_iff_example :
    (execute sample_json no_url nothing_there sample_components
        (Component.root_dir ∷ [])
        only_git
        "shell"
        shell_spec
        run_tool
        git_status
      ≡ ok 0)
    ↔ IsGranted sample_json no_url nothing_there sample_components
        (Component.root_dir ∷ [])
        only_git
        "shell"
        shell_spec
        git_status
execute_iff_example =
    execute_iff sample_json no_url nothing_there sample_components (Component.root_dir ∷ [])
      only_git "shell" shell_spec run_tool git_status

git_unlisted : member_text [] only_git.shell.allowed_commands ≡ false
unfolding member_text any same
git_unlisted = refl

given_command : field git_status "command" ≡ some (text (codes "git status"))
unfolding lookup String-discrete
given_command = refl

-- The command is listed, and the call is refused.
shell_object_refused_example :
    (execute sample_json no_url nothing_there sample_components
        (Component.root_dir ∷ [])
        only_git
        "shell"
        shell_spec
        run_tool
        git_status
      ≡ err no_shell)
    ⊎ (execute sample_json no_url nothing_there sample_components
          (Component.root_dir ∷ [])
          only_git
          "shell"
          shell_spec
          run_tool
          git_status
        ≡ err (other_command []))
shell_object_refused_example =
    shell_object_refused sample_json no_url nothing_there sample_components
      (Component.root_dir ∷ []) only_git shell_spec run_tool git_status (text (codes "git status"))
      given_command refl git_unlisted

abbrev climbing : FilePath
climbing = sample_components (codes "/a/link/../x")

normalize_path-IsClean_example :
    IsClean (normalize_path [] climbing)
    × (normalize_path [] (normalize_path [] climbing) ≡ normalize_path [] climbing)
unfolding same is_absolute
normalize_path-IsClean_example = normalize_path-IsClean [] climbing (inl refl)

-- `..` is taken away with the name before it, although that name is a link to another directory.
climbing_test :
    path_allowed nothing_there sample_components [] (codes "/a/link/../x") (codes "/a" ∷ []) ≡ true
unfolding path_allowed same
climbing_test = refl
