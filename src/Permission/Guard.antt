-- ===== src/Permission/Guard.antt =====
-- zhongshu-core/src/equipment/permission.rs: `PermissionGuard`. The tool inside is a function; the
-- host of a URL (`reqwest::Url::parse` and `host_str`) is a parameter.
use zhongshu.Prelude.{
  String, Bool, true, false, not, ◌&&◌, ◌||◌, List, [], ◌∷◌, Option, none, some, Result, ok, err,
  ◌>>◌, ◌==◌, any, if◌then◌else◌,
}
use zhongshu.Prelude.Codes.{Codes, codes, same, trim, is_nothing, drop_spaces}
use zhongshu.Prelude.Text.{is_whitespace}
use zhongshu.Permission.Types.{
  EquipmentPermissions, ToolEffect, ToolSpec, Refusal, no_shell, no_network, unknown_host, no_write,
  no_filesystem, unknown_path, no_browser, other_command, other_host, other_path, not_covered, Json,
}
use zhongshu.Permission.Hosts.{to_ascii_lowercase, host_allowed}
use zhongshu.Permission.Paths.{FilePath, path_allowed}

-- `split_whitespace().next()`, or nothing.
unfoldable pub word : Codes → Codes
unfolding is_whitespace
word [] = []
word (c ∷ s) = if is_whitespace c then [] else (c ∷ word s)

unfoldable pub first_word : Codes → Codes
unfolding drop_spaces word
first_word s = word (drop_spaces s)

unfoldable pub member_text : Codes → List Codes → Bool
unfolding same any
member_text s texts = any (same s) texts

unfoldable pub is_among : String → List String → Bool
is_among name [] = false
is_among name (n ∷ names) = n == name || is_among name names

unfoldable pub network_tools : List String
network_tools = "webfetch" ∷ "search" ∷ "web_search" ∷ []

unfoldable pub file_tools : List String
file_tools =
    "read" ∷ "grep" ∷ "glob" ∷ "search_files" ∷ "fs" ∷ "list_dir" ∷ "read_file" ∷ "write_file"
    ∷ "edit" ∷ []

unfoldable pub browser_tools : List String
browser_tools = "browser" ∷ "browser_automation" ∷ "browser_session" ∷ "screenshot" ∷ []

unfoldable pub is_write_tool : String → Bool
unfolding is_among
is_write_tool name = is_among name ("fs" ∷ "write_file" ∷ "edit" ∷ [])

unfoldable pub declares_external_permission : EquipmentPermissions → Bool
unfolding is_nothing
declares_external_permission p =
    p.shell.allowed
    || not (is_nothing p.shell.allowed_commands)
    || p.network.allowed
    || not (is_nothing p.network.allowed_hosts)
    || p.filesystem.allowed
    || not (is_nothing p.filesystem.allowed_paths)
    || p.filesystem.write_allowed
    || p.browser.allowed

abbrev pub text_or_empty : Option Codes → Codes
text_or_empty none = []
text_or_empty (some s) = s

abbrev pub is_some {ℓ} : {A : Type ℓ} → Option A → Bool
is_some none = false
is_some (some a) = true

unfoldable pub is_read_effect : ToolEffect → Bool
is_read_effect ToolEffect.read = true
is_read_effect effect = false

unfoldable pub is_open : ToolSpec → Bool
unfolding is_read_effect
is_open spec = spec.read_only && not spec.requires_approval && is_read_effect spec.effect

module _ (json : Json) where
  -- `args[key].as_str()`.
  unfoldable pub text_at : json.Value → String → Option Codes
  text_at args key = elim (json.get args key) [ none ↦ none | some v ↦ json.as_str v ]

  -- The tool that `path` among the arguments is checked as.
  unfoldable pub filesystem_tool : json.Value → String
  filesystem_tool args =
      if is_some (json.get args "content")
        || is_some (json.get args "old")
        || is_some (json.get args "new")
      then "write_file"
      else "read_file"

module _ (json : Json) (url_host : Codes → Option Codes) where
  unfoldable pub network_host_for_tool : String → json.Value → Option Codes
  network_host_for_tool tool_name args =
      let fetched : Option Codes = elim (text_at json args "url") [
        | none ↦ none
        | some url ↦ elim (url_host url) [
          | none ↦ none
          | some host ↦ some (to_ascii_lowercase host)
        ]
      ] in
      if tool_name == "webfetch"
      then fetched
      else if tool_name == "search" || tool_name == "web_search"
      then some (codes "html.duckduckgo.com")
      else none

module _ (json : Json) (url_host : Codes → Option Codes) (canonicalize : FilePath → Option FilePath)
    (components : Codes → FilePath) (current_dir : FilePath)
    (permissions : EquipmentPermissions) where
  unfoldable pub check_shell : json.Value → Result Refusal (Unit {0})
  check_shell args =
      let cmd = first_word (text_or_empty (json.as_str args)) in
      if permissions.shell.allowed
      then ok tt
      else if is_nothing permissions.shell.allowed_commands
      then err no_shell
      else if not (member_text cmd permissions.shell.allowed_commands)
      then err (other_command cmd)
      else ok tt

  unfoldable pub check_host : Option Codes → Result Refusal (Unit {0})
  check_host none = err unknown_host
  check_host (some host) =
      if host_allowed host permissions.network.allowed_hosts then ok tt else err (other_host host)

  unfoldable pub check_network : String → json.Value → Result Refusal (Unit {0})
  check_network tool_name args =
      let np = permissions.network in
      if np.allowed && is_nothing np.allowed_hosts
      then ok tt
      else if is_nothing np.allowed_hosts
      then err no_network
      else check_host (network_host_for_tool json url_host tool_name args)

  unfoldable pub check_path : Option Codes → Result Refusal (Unit {0})
  check_path none = err unknown_path
  check_path (some path) =
      if is_nothing (trim path)
      then err unknown_path
      else if path_allowed canonicalize components current_dir path
          permissions.filesystem.allowed_paths
      then ok tt
      else err (other_path path)

  unfoldable pub check_filesystem : String → json.Value → Result Refusal (Unit {0})
  check_filesystem tool_name args =
      let fp = permissions.filesystem in
      if is_write_tool tool_name && not fp.write_allowed
      then err no_write
      else if fp.allowed && is_nothing fp.allowed_paths
      then ok tt
      else if is_nothing fp.allowed_paths
      then err no_filesystem
      else check_path (text_at json args "path")

  unfoldable pub check_browser : Result Refusal (Unit {0})
  check_browser = if permissions.browser.allowed then ok tt else err no_browser

  unfoldable pub check_command : Option json.Value → Result Refusal (Unit {0})
  check_command none = ok tt
  check_command (some command) = check_shell command

  unfoldable pub check_arguments : json.Value → Result Refusal (Unit {0})
  check_arguments args = do
    if is_some (json.get args "url") then check_network "webfetch" args else ok tt
    if is_some (json.get args "path")
        then check_filesystem (filesystem_tool json args) args
        else ok tt
    check_command (json.get args "command")
    if is_some (json.get args "action") then check_browser else ok tt

  unfoldable pub check_unclassified_tool :
      String → ToolSpec → json.Value → Result Refusal (Unit {0})
  check_unclassified_tool name spec args =
      if is_open spec
      then ok tt
      else if declares_external_permission permissions
      then check_arguments args
      else err (not_covered name)

  -- The `match` of `execute` on the tool's name.
  unfoldable pub check_call : String → ToolSpec → json.Value → Result Refusal (Unit {0})
  check_call name spec args =
      if name == "shell"
      then check_shell args
      else if is_among name network_tools
      then check_network name args
      else if is_among name file_tools
      then check_filesystem name args
      else if is_among name browser_tools
      then check_browser
      else check_unclassified_tool name spec args

  -- A refusal, or what the tool inside answers.
  unfoldable pub execute {ℓ} :
      {Output : Type ℓ}
      → String
      → ToolSpec
      → (json.Value → Output)
      → json.Value
      → Result Refusal Output
  execute name spec inner args = elim (check_call name spec args) [
    | err refusal ↦ err refusal
    | ok _ ↦ ok (inner args)
  ]
