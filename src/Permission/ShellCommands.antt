-- ===== src/Permission/ShellCommands.antt =====
-- A listed command and the arguments of the shell tool.
use zhongshu.Prelude.{
  String, false, [], Option, none, some, err, ◌⊎◌, inl, inr, Bool-cases, String-discrete, ◌≡◌, refl,
  ap, ◌∙◌, arith,
}
use zhongshu.Prelude.Codes.{Codes, drop_spaces, is_nothing}
use zhongshu.Permission.Types.{
  EquipmentPermissions, ToolSpec, Refusal, other_command, no_shell, Json,
}
use zhongshu.Permission.Paths.{FilePath}
use zhongshu.Permission.Guard.{
  first_word, word, member_text, text_or_empty, check_shell, check_call, execute,
}

module _ (json : Json) (url_host : Codes → Option Codes) (canonicalize : FilePath → Option FilePath)
    (components : Codes → FilePath) (current_dir : FilePath)
    (permissions : EquipmentPermissions) where
  shell_refused :
      (args : json.Value)
      → json.as_str args ≡ none
      → permissions.shell.allowed ≡ false
      → member_text [] permissions.shell.allowed_commands ≡ false
      → (check_shell json url_host canonicalize components current_dir permissions args
          ≡ err no_shell)
        ⊎ (check_shell json url_host canonicalize components current_dir permissions args
            ≡ err (other_command []))
  unfolding check_shell first_word drop_spaces word
  shell_refused args no_text denied unlisted =
      let no_word : first_word (text_or_empty (json.as_str args)) ≡ [] =
        ap (λ o. first_word (text_or_empty o)) no_text in
      elim (Bool-cases (is_nothing permissions.shell.allowed_commands)) [
        | inl e ↦ inl (ground (arith, denied, e))
        | inr e ↦ inr (ground (arith, denied, e, no_text, no_word, unlisted))
      ]

  check_call_is_shell :
      (spec : ToolSpec) (args : json.Value)
      → check_call json url_host canonicalize components current_dir permissions "shell" spec args
        ≡ check_shell json url_host canonicalize components current_dir permissions args
  unfolding check_call String-discrete
  check_call_is_shell spec args = refl

  execute_refused {ℓ} :
      {Output : Type ℓ} (name : String) (spec : ToolSpec) (inner : json.Value → Output)
      (args : json.Value) (r : Refusal)
      → check_call json url_host canonicalize components current_dir permissions name spec args
        ≡ err r
      → execute json url_host canonicalize components current_dir permissions name spec inner args
        ≡ err r
  unfolding execute
  execute_refused name spec inner args r e = rw (execute, e) refl

  -- `shell` with an object as its arguments, the form that the tool asks for: unless the shell is allowed
  -- as a whole, or the empty word is a listed command, the call is refused, whatever commands are listed.
  pub shell_object_refused {ℓ} :
      {Output : Type ℓ} (spec : ToolSpec) (inner : json.Value → Output) (args command : json.Value)
      → json.get args "command" ≡ some command
      → permissions.shell.allowed ≡ false
      → member_text [] permissions.shell.allowed_commands ≡ false
      → (execute json url_host canonicalize components current_dir permissions "shell" spec inner
            args
          ≡ err no_shell)
        ⊎ (execute json url_host canonicalize components current_dir permissions "shell" spec inner
              args
            ≡ err (other_command []))
  shell_object_refused spec inner args command given denied unlisted =
      elim (shell_refused args (json.get_no_str args command "command" given) denied unlisted) [
        | inl e ↦
            inl
              (execute_refused "shell" spec inner args no_shell (check_call_is_shell spec args ∙ e))
        | inr e ↦ inr (
            execute_refused "shell" spec inner args (other_command [])
              (check_call_is_shell spec args ∙ e))
      ]
