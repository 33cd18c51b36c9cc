-- ===== src/Shell/Analyze.antt =====
-- `ShellSemantics::analyze`: what a whole command is taken for.
use zhongshu.Prelude.{Bool, true, false, ◌||◌, List, [], ◌∷◌, Option, none, some, if◌then◌else◌}
use zhongshu.Prelude.Codes.{Codes, trim, ends_with_char}
use zhongshu.Shell.Types.{
  ShellSegment, ShellSemantics, ShellCommandClass, noop, verification, blocked, background, combine,
}
use zhongshu.Shell.Split.{split_segments}
use zhongshu.Shell.Classify.{
  classify_segment, detect_block_reason, requires_segment_approval, is_operator,
}

-- The variables of the loop.
pub record Findings : Type 0 where
  pub command_class : ShellCommandClass
  pub is_verification : Bool
  pub is_background : Bool
  pub requires_approval : Bool
  pub block_reason : Option Codes

unfoldable pub is_class_verification : ShellCommandClass → Bool
is_class_verification verification = true
is_class_verification _ = false

unfoldable pub or_else : Option Codes → Option Codes → Option Codes
or_else none before = before
or_else (some reason) before = some reason

unfoldable pub is_set : Option Codes → Bool
is_set none = false
is_set (some reason) = true

module _ (lowercase : Codes → Codes) where
  -- One turn of the loop.
  unfoldable pub look_at : ShellSegment → Findings → Findings
  unfolding combine classify_segment is_class_verification is_operator or_else detect_block_reason
      requires_segment_approval
  look_at segment f =
      let c = classify_segment lowercase segment in
      record {
        command_class = combine f.command_class c;
        is_verification = f.is_verification || is_class_verification c;
        is_background = f.is_background || is_operator lowercase background segment.operator_after;
        requires_approval =
            if requires_segment_approval lowercase segment c then true else f.requires_approval;
        block_reason = or_else (detect_block_reason lowercase segment.text) f.block_reason;
      }

  unfoldable pub look_at_all : Findings → List ShellSegment → Findings
  unfolding look_at
  look_at_all f [] = f
  look_at_all f (segment ∷ segments) = look_at_all (look_at segment f) segments

  -- The variables before the loop.
  unfoldable pub nothing_found : Codes → Findings
  unfolding ends_with_char
  nothing_found normalized = record {
    command_class = noop;
    is_verification = false;
    is_background = ends_with_char b'&' normalized;
    requires_approval = false;
    block_reason = none;
  }

  -- What follows the loop.
  unfoldable pub conclude : Codes → Codes → List ShellSegment → Findings → ShellSemantics
  unfolding is_set
  conclude raw_command normalized segments f = record {
    raw_command = raw_command;
    normalized_command = normalized;
    segments = segments;
    command_class = if is_set f.block_reason then blocked else f.command_class;
    is_verification = f.is_verification;
    is_background = f.is_background;
    requires_approval = if is_set f.block_reason then true else f.requires_approval;
    block_reason = f.block_reason;
  }

  unfoldable pub analyze : Codes → ShellSemantics
  unfolding trim split_segments look_at_all nothing_found conclude
  analyze raw_command =
      let normalized = trim raw_command in
      let segments = split_segments normalized in
      conclude raw_command normalized segments (look_at_all (nothing_found normalized) segments)
