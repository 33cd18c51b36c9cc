-- ===== src/Shell/Classify.antt =====
-- What a segment does: its class, whether it needs an approval, whether it is blocked.
-- `str::to_lowercase` is the parameter `lowercase`.
use zhongshu.Prelude.{
  String, Bool, true, false, ◌&&◌, ◌||◌, List, [], ◌∷◌, Option, none, some, if◌then◌else◌,
}
use zhongshu.Prelude.Codes.{Codes, codes, is_one_of, contains, join, trim_char, last_part}
use zhongshu.Shell.Types.{
  ShellSegment, ShellOperator, sequence, background, ShellCommandClass, noop, read, search, list,
  build, verification, network, mutation, destructive, unknown, blocked,
}

unfoldable pub has : Codes → String → Bool
unfolding contains
has s w = contains s (codes w)

module _ (lowercase : Codes → Codes) where
  unfoldable pub normalize_program : Codes → Codes
  unfolding trim_char last_part
  normalize_program program = lowercase (last_part (trim_char b'\'' (trim_char b'"' program)))

  unfoldable pub lower_args : List Codes → Codes
  unfolding join
  lower_args args = lowercase (join (codes " ") args)

  unfoldable pub is_verification_command : Codes → List Codes → Bool
  unfolding is_one_of has lower_args
  is_verification_command program args =
      let joined = lower_args args in
      if is_one_of program ("cargo" ∷ [])
      then has joined "test" || has joined "check" || has joined "clippy" || has joined "fmt"
      else if is_one_of program ("npm" ∷ "pnpm" ∷ "yarn" ∷ "bun" ∷ [])
      then has joined "test" || has joined "lint"
      else if is_one_of program ("go" ∷ [])
      then has joined "test"
      else if is_one_of program ("pytest" ∷ "vitest" ∷ "jest" ∷ "mocha" ∷ "ruff" ∷ "mypy" ∷ [])
      then true
      else if is_one_of program ("python" ∷ "python3" ∷ [])
      then has joined "pytest" || has joined "unittest"
      else false

  -- The `match` on the name of the program; `args` is in lower case.
  unfoldable pub class_of : Codes → Codes → ShellCommandClass
  unfolding is_one_of has
  class_of program args =
      if is_one_of program ("ls" ∷ "dir" ∷ "find" ∷ "fd" ∷ [])
      then list
      else if is_one_of program
          ("cat" ∷ "type" ∷ "less" ∷ "more" ∷ "head" ∷ "tail" ∷ "sed" ∷ "awk" ∷ "wc" ∷ [])
      then read
      else if is_one_of program
          ("grep" ∷ "rg" ∷ "ripgrep" ∷ "where" ∷ "where.exe" ∷ "select-string" ∷ [])
      then search
      else if is_one_of program ("cargo" ∷ []) && (has args "build" || has args "check")
      then build
      else if is_one_of program ("npm" ∷ "pnpm" ∷ "yarn" ∷ []) && has args "build"
      then build
      else if is_one_of program ("go" ∷ []) && has args "build"
      then build
      else if is_one_of program ("curl" ∷ "wget" ∷ "git" ∷ "gh" ∷ "ssh" ∷ "scp" ∷ "rsync" ∷ [])
      then network
      else if is_one_of program (
          "rm" ∷ "del" ∷ "erase" ∷ "move" ∷ "mv" ∷ "cp" ∷ "copy" ∷ "mkdir" ∷ "rmdir" ∷ "touch"
          ∷ "chmod" ∷ "chown" ∷ "icacls" ∷ "takeown" ∷ [])
      then mutation
      else if is_one_of program (
          "format" ∷ "diskpart" ∷ "mkfs" ∷ "mkfs.ext4" ∷ "mkfs.ntfs" ∷ "reg" ∷ "sc" ∷ "taskkill"
          ∷ "shutdown" ∷ [])
      then destructive
      else if is_one_of program ("powershell" ∷ "pwsh" ∷ []) && has args "encodedcommand"
      then destructive
      else unknown

  unfoldable pub classify_segment : ShellSegment → ShellCommandClass
  unfolding normalize_program is_verification_command class_of lower_args
  classify_segment segment = elim segment.program [
    | none ↦ noop
    | some p ↦
        let program = normalize_program p in
        if is_verification_command program segment.args
        then verification
        else class_of program (lower_args segment.args)
  ]

  unfoldable pub has_dangerous_expansion : Codes → Bool
  unfolding has
  has_dangerous_expansion text =
      let lower = lowercase text in
      has lower "$("
      || has lower "`"
      || has lower "<("
      || has lower ">("
      || has lower "${"
      || has lower "-encodedcommand"

  unfoldable pub is_risky : ShellCommandClass → Bool
  is_risky mutation = true
  is_risky destructive = true
  is_risky unknown = true
  is_risky blocked = true
  is_risky _ = false

  unfoldable pub is_operator : ShellOperator → Option ShellOperator → Bool
  is_operator background (some background) = true
  is_operator sequence (some sequence) = true
  is_operator _ _ = false

  unfoldable pub requires_segment_approval : ShellSegment → ShellCommandClass → Bool
  unfolding is_risky is_operator has_dangerous_expansion
  requires_segment_approval segment c =
      is_risky c
      || is_operator background segment.operator_after
      || is_operator sequence segment.operator_before
      || has_dangerous_expansion segment.text

  unfoldable pub detect_block_reason : Codes → Option Codes
  unfolding has
  detect_block_reason text =
      let lower = lowercase text in
      if has lower "rm -rf /"
        || has lower "del /s c:\\"
        || has lower "format c:"
        || has lower "diskpart"
        || has lower "reg delete hklm"
      then some (codes "command targets system-destructive operation")
      else if has lower "curl " && has lower "| sh"
      then some (codes "network script is piped into shell")
      else none
