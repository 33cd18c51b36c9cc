-- ===== src/Permission/Types.antt =====
-- The permissions that equipment declares (zhongshu-core/src/equipment/manifest.rs), what is read of a
-- tool's specification (zhongshu-core/src/tool/spec.rs), and what a refusal says.
use zhongshu.Prelude.{String, Bool, List, Option, none, some, ◌≡◌}
use zhongshu.Prelude.Codes.{Codes}

pub record ShellPermission : Type 0 where
  pub allowed : Bool
  pub allowed_commands : List Codes

pub record NetworkPermission : Type 0 where
  pub allowed : Bool
  pub allowed_hosts : List Codes

pub record FilesystemPermission : Type 0 where
  pub allowed : Bool
  pub allowed_paths : List Codes
  pub write_allowed : Bool

pub record BrowserPermission : Type 0 where
  pub allowed : Bool

pub record EquipmentPermissions : Type 0 where
  pub shell : ShellPermission
  pub network : NetworkPermission
  pub filesystem : FilesystemPermission
  pub browser : BrowserPermission

pub data ToolEffect : Type 0 where
  read write network process browser system memory unknown : ToolEffect

-- The fields of `ToolSpec` that the guard reads.
pub record ToolSpec : Type 0 where
  pub effect : ToolEffect
  pub read_only : Bool
  pub requires_approval : Bool

-- What the message of a refusal says.
pub data Refusal : Type 0 where
  no_shell no_network unknown_host no_write no_filesystem unknown_path no_browser : Refusal
  other_command other_host other_path : Codes → Refusal
  not_covered : String → Refusal

-- `serde_json::Value`: a text, and the value under a key; only an object has values under keys.
pub record Json : Type 1 where
  pub Value : Type 0
  pub as_str : Value → Option Codes
  pub get : Value → String → Option Value
  pub get_no_str : (v w : Value) (key : String) → get v key ≡ some w → as_str v ≡ none
