-- ===== src/Patch/Examples.antt =====
-- A small disk and a small encoding, on which the theorems about patches are put to use.
use zhongshu.Prelude.{
  ℕ, ◌<◌, arith, Result, err, ◌≤◌, Bool, true, false, List, [], ◌∷◌, ◌++◌, Option, none, some, ok,
  err, fold_result, ltb, length, any, ◌≡◌, refl,
}
use zhongshu.Prelude.Codes.{Codes, codes, starts_with, is_nothing, same}
use zhongshu.Permission.Paths.{
  Component, FilePath, path_starts_with, normalize_loop, is_absolute, component_eq, path_eq, pop,
  push_component,
}
use zhongshu.Patch.Types.{PatchError, utf8, LineEnding, ReplaceEdit, PatchOperation, binary_file}
use zhongshu.Patch.Replace.{
  apply_multi_replace, apply_replace, replace_matches, count_matches, changed_text, replace_text,
  replace_first, drop, rest_length,
}
use zhongshu.Patch.Edits.{EditedBy, apply_multi_replace-EditedBy}
use zhongshu.Patch.Encoding.{
  has_zero, encode, decode_text, detect_encoding, detect_ending, ending_of, skip_bom_16, units,
}
use zhongshu.Patch.Endings.{HasEndings, HasPairs}
use zhongshu.Patch.Engine.{
  PatchPreview, Disk, PatchEngine, snapshot_of, apply_preview, resolve_workspace_path, exists_at,
  read_file, remember_snapshot, read_snapshot, put,
}
use zhongshu.Patch.Applies.{Applies}
use zhongshu.Patch.Plan.{
  VirtualFile, PatchFileEffectPlan, plan_operations, all_plans, plan_loop, plan_one, edit_file,
  open_file, initial_file, file_of_read, effect_plan, may_create, simulate,
}
use zhongshu.Patch.Opened.{StartsAt, Made}
use zhongshu.Patch.Planned.{plan_operations-Made}
use zhongshu.Patch.Written.{read_back, apply_preview_reads}
use zhongshu.Patch.SampleCodec.{encode_char, encode_all, sample_codec, decode_from}

abbrev root : FilePath
root = Component.root_dir ∷ []

abbrev file_path : FilePath
file_path = Component.root_dir ∷ Component.normal (codes "a") ∷ []

abbrev one_component : Codes → FilePath
one_component s = Component.normal s ∷ []

abbrev never : Codes → Bool
never s = false

abbrev first_content : Codes
first_content = codes "x=1" ++ 13 ∷ 10 ∷ []

abbrev one_file : Disk
one_file = record { file = λ p. some first_content; is_dir = λ p. false; can_write = λ p. true }

abbrev has_read : PatchEngine
has_read = record {
  workspace_root = root;
  reads = λ p. some (record {
    path = p;
    content = first_content;
    encoding = utf8;
    line_ending = LineEnding.crlf;
  });
  max_file_bytes = 100;
}

abbrev set_two : PatchOperation
set_two =
    PatchOperation.replace
      (record { path = codes "a"; old_text = codes "1"; new_text = codes "2"; replace_all = false })

abbrev two_lines : PatchPreview
two_lines = record {
  path = file_path;
  original_content = first_content;
  updated_content = codes "x=2" ++ 10 ∷ [];
  encoding = utf8;
  line_ending = LineEnding.crlf;
}

-- The line end that is written is not the one of the preview.
abbrev paired : Codes
paired = codes "x=2" ++ 13 ∷ 10 ∷ []

plain_char :
    (c : ℕ) (s : Codes) → 13 < c → ¬ (c ≡ 10) × ¬ ((rest : Codes) × (c ∷ s ≡ 13 ∷ 10 ∷ rest))
plain_char c s h = ((λ e. omega (arith, h, e)), λ (rest, e). ground (arith, h, e))

two_lines_endings : HasEndings LineEnding.crlf two_lines.updated_content paired
two_lines_endings =
    let (x, x_alone) = plain_char 120 (61 ∷ 50 ∷ 10 ∷ []) (omega arith) in
    let (equals, equals_alone) = plain_char 61 (50 ∷ 10 ∷ []) (omega arith) in
    let (two, two_alone) = plain_char 50 (10 ∷ []) (omega arith) in
    HasPairs.other 120 x x_alone (
      HasPairs.other 61 equals equals_alone
        (HasPairs.other 50 two two_alone (HasPairs.bare HasPairs.at_end)))

two_lines_plain : (has_zero paired ≡ false) × (starts_with paired (65279 ∷ []) ≡ false)
unfolding any starts_with
two_lines_plain = (refl, refl)

two_lines_small : ltb 100 (length (encode sample_codec utf8 paired)) ≡ false
unfolding encode encode_all encode_char
two_lines_small = refl

apply_preview_reads_example :
    ((apply_preview sample_codec one_component never two_lines has_read one_file).0.0
      ≡ ok (read_back sample_codec one_component never two_lines paired))
    × ((apply_preview sample_codec one_component never two_lines has_read one_file).0.1.reads
          file_path
        ≡ some (read_back sample_codec one_component never two_lines paired))
apply_preview_reads_example =
    apply_preview_reads sample_codec one_component never two_lines paired has_read one_file
      two_lines_endings refl two_lines_plain two_lines_small

abbrev two_edits : List ReplaceEdit
two_edits =
    record { old_text = codes "a"; new_text = codes "b"; replace_all = true }
    ∷ record { old_text = codes "c"; new_text = codes "d"; replace_all = false }
    ∷ []

edited_text : apply_multi_replace (codes "aca") two_edits ≡ ok (codes "bdb")
unfolding apply_multi_replace is_nothing fold_result apply_replace same replace_matches
    count_matches starts_with changed_text replace_text replace_first drop
edited_text = refl

apply_multi_replace-EditedBy_example :
    EditedBy two_edits (codes "aca") (codes "bdb")
    × (1 ≤ length two_edits)
    × ¬ (codes "bdb" ≡ codes "aca")
apply_multi_replace-EditedBy_example =
    apply_multi_replace-EditedBy (codes "aca") (codes "bdb") two_edits edited_text

-- A text of ASCII characters in UTF-16 is taken for a binary file.
utf16_test :
    snapshot_of sample_codec one_component never 100 file_path (255 ∷ 254 ∷ 65 ∷ 0 ∷ [])
    ≡ err binary_file
unfolding snapshot_of any
utf16_test = refl

abbrev two_operations : List PatchOperation
two_operations =
    set_two
    ∷ PatchOperation.replace (record {
      path = codes "a";
      old_text = codes "2";
      new_text = codes "3";
      replace_all = false;
    })
    ∷ []

-- The plan of the one file, whose hash is its text.
abbrev edits_plan : PatchFileEffectPlan Codes
edits_plan = record {
  before_hash = first_content;
  after_hash = codes "x=3" ++ 13 ∷ 10 ∷ [];
  existed_before = true;
}

abbrev plans_of :
    Result PatchError (FilePath → Option (PatchFileEffectPlan Codes))
    → FilePath
    → Option (PatchFileEffectPlan Codes)
plans_of (ok plans) = plans
plans_of (err e) = λ p. none

abbrev edits_plans : FilePath → Option (PatchFileEffectPlan Codes)
edits_plans =
    plans_of
      (plan_operations sample_codec one_component never one_file (λ s. s) two_operations has_read).0

edits_planned :
    (plan_operations sample_codec one_component never one_file (λ s. s) two_operations has_read).0
    ≡ ok edits_plans
unfolding plan_operations all_plans plan_loop plan_one resolve_workspace_path path_starts_with
    normalize_loop is_absolute edit_file open_file initial_file exists_at file_of_read read_file
    remember_snapshot read_snapshot snapshot_of any decode_text detect_encoding detect_ending
    ending_of skip_bom_16 units put effect_plan may_create simulate apply_multi_replace
    apply_replace changed_text count_matches drop replace_first replace_matches replace_text
    rest_length component_eq path_eq pop push_component is_nothing same starts_with fold_result
    decode_from
edits_planned = refl

edits_found : edits_plans file_path ≡ some edits_plan
unfolding plan_operations all_plans plan_loop plan_one resolve_workspace_path path_starts_with
    normalize_loop is_absolute edit_file open_file initial_file exists_at file_of_read read_file
    remember_snapshot read_snapshot snapshot_of any decode_text detect_encoding detect_ending
    ending_of skip_bom_16 units put effect_plan may_create simulate apply_multi_replace
    apply_replace changed_text count_matches drop replace_first replace_matches replace_text
    rest_length component_eq path_eq pop push_component is_nothing same starts_with fold_result
    decode_from
edits_found = refl

plan_operations-Made_example :
    (first : VirtualFile) × (last : VirtualFile) × StartsAt sample_codec one_component never
      one_file 100 file_path first
    × Made
        (resolve_workspace_path sample_codec one_component never has_read)
        file_path
        two_operations
        first
        last
    × (edits_plan.before_hash ≡ first.before)
    × (edits_plan.after_hash ≡ last.current)
    × (edits_plan.existed_before ≡ first.existed_before)
plan_operations-Made_example =
    plan_operations-Made sample_codec one_component never one_file (λ s. s) two_operations has_read
      edits_plans file_path edits_plan edits_planned edits_found
