-- ===== src/Permission/Grants.antt =====
-- When the guard lets a call through.
use zhongshu.Prelude.{
  String, true, false, [], Option, none, some, Result, ok, ◌>>◌, Result-cases, In, ◌↔◌, ◌⊎◌, inl,
  inr, Bool-cases, ◌≡◌, refl, subst, arith, if◌then◌else◌, ◌==◌,
}
use zhongshu.Prelude.Codes.{Codes, trim, is_nothing}
use zhongshu.Permission.Types.{EquipmentPermissions, ToolSpec, Refusal, Json}
use zhongshu.Permission.Paths.{FilePath}
use zhongshu.Permission.Guard.{
  first_word, is_among, network_tools, file_tools, browser_tools, is_write_tool,
  declares_external_permission, text_or_empty, is_some, is_open, text_at, check_shell,
  network_host_for_tool, check_host, check_network, check_path, check_filesystem, check_browser,
  filesystem_tool, check_command, check_arguments, check_unclassified_tool, check_call, execute,
}
use zhongshu.Permission.Entries.{
  member_text_iff, HostGranted, host_allowed_iff, PathGranted, path_allowed_iff,
}
use zhongshu.Permission.Choices.{
  full_of_In, nothing_is_nil, nil_is_nothing, if_there, both_ok, if_iff,
}

module _ (json : Json) (url_host : Codes → Option Codes) (canonicalize : FilePath → Option FilePath)
    (components : Codes → FilePath) (current_dir : FilePath)
    (permissions : EquipmentPermissions) where
  -- The shell is allowed, or the first word of the text is a listed command.
  abbrev pub ShellGranted : json.Value → Type 0
  ShellGranted args =
      (permissions.shell.allowed ≡ true)
      ⊎ In (first_word (text_or_empty (json.as_str args))) permissions.shell.allowed_commands

  -- The network is allowed and no host is listed, or the host is known and within a listed one.
  abbrev pub NetworkGranted : String → json.Value → Type 0
  NetworkGranted tool_name args =
      ((permissions.network.allowed ≡ true) × (permissions.network.allowed_hosts ≡ []))
      ⊎ ((host : Codes) × (network_host_for_tool json url_host tool_name args ≡ some host)
          × HostGranted host permissions.network.allowed_hosts)

  -- A tool that writes needs the permission to write; files are allowed and no path is listed, or the
  -- path is given, is not blank, and lies at or below a listed one.
  abbrev pub FilesystemGranted : String → json.Value → Type 0
  FilesystemGranted tool_name args =
      (is_write_tool tool_name ≡ true → permissions.filesystem.write_allowed ≡ true)
      × (((permissions.filesystem.allowed ≡ true) × (permissions.filesystem.allowed_paths ≡ []))
          ⊎ ((path : Codes) × (text_at json args "path" ≡ some path)
              × (is_nothing (trim path) ≡ false)
              × PathGranted canonicalize components current_dir path
                  permissions.filesystem.allowed_paths))

  shell_iff :
      (args : json.Value)
      → (check_shell json url_host canonicalize components current_dir permissions args ≡ ok tt)
        ↔ ShellGranted args
  unfolding check_shell
  shell_iff args =
      let cmd = first_word (text_or_empty (json.as_str args)) in
      let (there, back) = member_text_iff cmd permissions.shell.allowed_commands in
      (
        λ h. elim (Bool-cases permissions.shell.allowed) [
          | inl e ↦ inl e
          | inr e ↦ inr (there (ground (arith, h, e)))
        ],
        λ g. elim g [
          | inl e ↦ rw e refl
          | inr i ↦ ground (arith, back i, full_of_In cmd permissions.shell.allowed_commands i)
        ],
      )

  host_iff :
      (host : Option Codes)
      → (check_host json url_host canonicalize components current_dir permissions host ≡ ok tt)
        ↔ ((h : Codes) × (host ≡ some h) × HostGranted h permissions.network.allowed_hosts)
  unfolding check_host
  host_iff none = (λ h. cc, λ (h, e, g). cc)
  host_iff (some host) =
      let (there, back) = host_allowed_iff host permissions.network.allowed_hosts in
      (
        λ h. (host, refl, there (ground (arith, h))),
        λ (h, e, g). ground (arith, (host_allowed_iff h permissions.network.allowed_hosts).1 g, e),
      )

  network_iff :
      (tool_name : String) (args : json.Value)
      → (check_network json url_host canonicalize components current_dir permissions tool_name args
          ≡ ok tt)
        ↔ NetworkGranted tool_name args
  unfolding check_network
  network_iff tool_name args =
      let hosts = permissions.network.allowed_hosts in
      let (there, back) = host_iff (network_host_for_tool json url_host tool_name args) in
      (
        λ h. elim (Bool-cases (is_nothing hosts)) [
          | inl e ↦ inl (ground (arith, h, e), nothing_is_nil hosts e)
          | inr e ↦ inr (there (ground (arith, h, e)))
        ],
        λ g. elim g [
          | inl (a, e) ↦ ground (arith, a, nil_is_nothing hosts e)
          | inr (host, e, g) ↦ ground (arith, full_of_In g.0 hosts g.1, back (host, e, g))
        ],
      )

  path_iff :
      (path : Option Codes)
      → (check_path json url_host canonicalize components current_dir permissions path ≡ ok tt) ↔ (
          (p : Codes) × (path ≡ some p)
          × (is_nothing (trim p) ≡ false)
          × PathGranted canonicalize components current_dir p permissions.filesystem.allowed_paths)
  unfolding check_path
  path_iff none = (λ h. cc, λ (p, e, full, g). cc)
  path_iff (some path) =
      let paths = permissions.filesystem.allowed_paths in
      let (there, back) = path_allowed_iff canonicalize components current_dir path paths in
      (
        λ h. (path, refl, ground (arith, h), there (ground (arith, h))),
        λ (p, e, full, g).
            ground
              (arith, (path_allowed_iff canonicalize components current_dir p paths).1 g, full, e),
      )

  filesystem_iff :
      (tool_name : String) (args : json.Value)
      → (check_filesystem json url_host canonicalize components current_dir permissions tool_name
            args
          ≡ ok tt)
        ↔ FilesystemGranted tool_name args
  unfolding check_filesystem
  filesystem_iff tool_name args =
      let paths = permissions.filesystem.allowed_paths in
      let (there, back) = path_iff (text_at json args "path") in
      (
        λ h. (
          λ w. ground (arith, h, w),
          elim (Bool-cases (is_nothing paths)) [
            | inl e ↦ inl (ground (arith, h, e), nothing_is_nil paths e)
            | inr e ↦ inr (there (ground (arith, h, e)))
          ],
        ),
        λ (w, g). elim g [
          | inl (a, e) ↦ ground (arith, w, a, nil_is_nothing paths e)
          | inr (p, e, full, g) ↦ ground (arith, w, full_of_In g.0 paths g.1, back (p, e, full, g))
        ],
      )

  -- What any other tool may do: its specification says that it only reads and needs no approval; or the
  -- equipment declares some permission, and each argument that is there is granted as what it stands for.
  abbrev pub OtherGranted : ToolSpec → json.Value → Type 0
  OtherGranted spec args =
      (is_open spec ≡ true)
      ⊎ ((declares_external_permission permissions ≡ true)
          × (is_some (json.get args "url") ≡ true → NetworkGranted "webfetch" args)
          × (is_some (json.get args "path") ≡ true
              → FilesystemGranted (filesystem_tool json args) args)
          × ((command : json.Value) → json.get args "command" ≡ some command → ShellGranted command)
          × (is_some (json.get args "action") ≡ true → permissions.browser.allowed ≡ true))

  -- What a call needs, by the name of the tool.
  abbrev pub IsGranted : String → ToolSpec → json.Value → Type 0
  IsGranted name spec args =
      if name == "shell"
      then ShellGranted args
      else if is_among name network_tools
      then NetworkGranted name args
      else if is_among name file_tools
      then FilesystemGranted name args
      else if is_among name browser_tools
      then permissions.browser.allowed ≡ true
      else OtherGranted spec args

  browser_iff :
      (check_browser json url_host canonicalize components current_dir permissions ≡ ok tt)
      ↔ (permissions.browser.allowed ≡ true)
  unfolding check_browser
  browser_iff = (λ h. ground (arith, h), λ h. ground (arith, h))

  command_iff :
      (command : Option json.Value)
      → (check_command json url_host canonicalize components current_dir permissions command
          ≡ ok tt)
        ↔ ((v : json.Value) → command ≡ some v → ShellGranted v)
  unfolding check_command
  command_iff none = (λ h v e. cc, λ g. refl)
  command_iff (some v) = (
    λ h w e. subst ShellGranted (ground (arith, e)) ((shell_iff v).0 h),
    λ g. (shell_iff v).1 (g v refl),
  )

  arguments_iff :
      (args : json.Value)
      → (check_arguments json url_host canonicalize components current_dir permissions args ≡ ok tt)
        ↔ ((is_some (json.get args "url") ≡ true → NetworkGranted "webfetch" args)
            × (is_some (json.get args "path") ≡ true
                → FilesystemGranted (filesystem_tool json args) args)
            × ((command : json.Value)
                → json.get args "command" ≡ some command
                → ShellGranted command)
            × (is_some (json.get args "action") ≡ true → permissions.browser.allowed ≡ true))
  unfolding check_arguments
  arguments_iff args =
      let url = if_there (is_some (json.get args "url")) _ (network_iff "webfetch" args) in
      let path =
        if_there (is_some (json.get args "path")) _
          (filesystem_iff (filesystem_tool json args) args) in
      let command = command_iff (json.get args "command") in
      let action = if_there (is_some (json.get args "action")) _ browser_iff in
      let c₁ : Result Refusal (Unit {0}) =
        if is_some (json.get args "url")
        then check_network json url_host canonicalize components current_dir permissions "webfetch"
            args
        else ok tt in
      let c₂ : Result Refusal (Unit {0}) =
        if is_some (json.get args "path")
        then check_filesystem json url_host canonicalize components current_dir permissions
            (filesystem_tool json args) args
        else ok tt in
      let c₃ : Result Refusal (Unit {0}) =
        check_command json url_host canonicalize components current_dir permissions
          (json.get args "command") in
      let c₄ : Result Refusal (Unit {0}) =
        if is_some (json.get args "action")
        then check_browser json url_host canonicalize components current_dir permissions
        else ok tt in
      (
        λ h.
            let (h₁, r₁) = (both_ok c₁ (c₂ >> (c₃ >> c₄))).0 h in
            let (h₂, r₂) = (both_ok c₂ (c₃ >> c₄)).0 r₁ in
            let (h₃, h₄) = (both_ok c₃ c₄).0 r₂ in (url.0 h₁, path.0 h₂, command.0 h₃, action.0 h₄),
        λ (g₁, g₂, g₃, g₄). (both_ok c₁ (c₂ >> (c₃ >> c₄))).1 (
          url.1 g₁,
          (both_ok c₂ (c₃ >> c₄)).1 (path.1 g₂, (both_ok c₃ c₄).1 (command.1 g₃, action.1 g₄)),
        ),
      )

  other_iff :
      (name : String) (spec : ToolSpec) (args : json.Value)
      → (check_unclassified_tool json url_host canonicalize components current_dir permissions name
            spec args
          ≡ ok tt)
        ↔ OtherGranted spec args
  unfolding check_unclassified_tool
  other_iff name spec args =
      let (there, back) = arguments_iff args in
      (
        λ h. elim (Bool-cases (is_open spec)) [
          | inl e ↦ inl e
          | inr e ↦
              let g = there (ground (arith, h, e)) in inr (ground (arith, h, e), g.0, g.1, g.2, g.3)
        ],
        λ g. elim g [
          | inl e ↦ rw e refl
          | inr (d, g₁, g₂, g₃, g₄) ↦ ground (arith, d, back (g₁, g₂, g₃, g₄))
        ],
      )

  call_iff :
      (name : String) (spec : ToolSpec) (args : json.Value)
      → (check_call json url_host canonicalize components current_dir permissions name spec args
          ≡ ok tt)
        ↔ IsGranted name spec args
  unfolding check_call
  call_iff name spec args = if_iff (name == "shell") _ _ (shell_iff args) (
      if_iff (is_among name network_tools) _ _ (network_iff name args) (
        if_iff (is_among name file_tools) _ _ (filesystem_iff name args)
          (if_iff (is_among name browser_tools) _ _ browser_iff (other_iff name spec args))))

  -- The tool inside is run with the arguments exactly if the call is granted: the shell if it is allowed
  -- or the first word is a listed command; the network if it is allowed with no host listed, or if the host
  -- is known and is a listed host or a subdomain of one; a file tool if it may write where it writes, and
  -- files are allowed with no path listed, or the path, resolved, lies at or below a listed one; the
  -- browser if it is allowed; any other tool if it only reads and needs no approval, or if equipment
  -- declares a permission and each argument that names a URL, a path, a command or an action is granted.
  pub execute_iff {ℓ} :
      {Output : Type ℓ} (name : String) (spec : ToolSpec) (inner : json.Value → Output)
      (args : json.Value)
      → (execute json url_host canonicalize components current_dir permissions name spec inner args
          ≡ ok (inner args))
        ↔ IsGranted name spec args
  unfolding execute
  execute_iff name spec inner args =
      let (there, back) = call_iff name spec args in
      elim (Result-cases
        (check_call json url_host canonicalize components current_dir permissions name spec args)) [
          | inl (u, e) ↦ (λ h. there e, λ g. rw (execute, e) refl)
          | inr (r, e) ↦
              (λ h. absurd (ground (arith, h, e)), λ g. absurd (ground (arith, back g, e)))
        ]
