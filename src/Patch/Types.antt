-- ===== src/Patch/Types.antt =====
-- The data of zhongshu-core/src/patch/mod.rs: requests, snapshots, previews, errors.
use zhongshu.Prelude.{ℕ, Bool, List, Option}
use zhongshu.Prelude.Codes.{Codes}

pub data TextEncoding : Type 0 where
  utf8 utf8_bom utf16_le : TextEncoding

pub data LineEnding : Type 0 where
  lf crlf mixed no_ending : LineEnding

pub record ReplaceRequest : Type 0 where
  pub path : Codes
  pub old_text : Codes
  pub new_text : Codes
  pub replace_all : Bool

pub record ReplaceEdit : Type 0 where
  pub old_text : Codes
  pub new_text : Codes
  pub replace_all : Bool

pub record MultiReplaceRequest : Type 0 where
  pub path : Codes
  pub edits : List ReplaceEdit

pub record WholeFileRequest : Type 0 where
  pub path : Codes
  pub content : Codes
  pub allow_create : Bool
  pub encoding : Option TextEncoding
  pub line_ending : Option LineEnding

pub data PatchOperation : Type 0 where
  replace : ReplaceRequest → PatchOperation
  multi_replace : MultiReplaceRequest → PatchOperation
  write_file : WholeFileRequest → PatchOperation

-- The errors, without the paths and texts that their messages print.
pub data PatchError : Type 0 where
  outside_workspace unsafe_path file_not_read binary_file read_failed write_failed decode_failed
        parent_directory_missing stale_read empty_old_text empty_patch no_op text_not_found :
      PatchError
  file_too_large : ℕ → ℕ → PatchError
  ambiguous_match : ℕ → PatchError
