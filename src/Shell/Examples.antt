-- ===== src/Shell/Examples.antt =====
-- Commands on which the theorems about shell commands are put to use.
use zhongshu.Prelude.{◌&&◌, ◌||◌, ◌+◌, map, leb, if◌then◌else◌, ◌≡◌, any, none}
use zhongshu.Prelude.Codes.{Codes, codes, trim}
use zhongshu.Shell.Split.{split_segments}
use zhongshu.Shell.Analyze.{analyze}
use zhongshu.Shell.Cut.{Cut}
use zhongshu.Shell.Lossless.{split_segments-Cut}
use zhongshu.Shell.Verdict.{
  Classed, needs_approval, is_blocked, analyze_requires_approval, analyze_class,
}

-- `to_lowercase` on ASCII.
abbrev ascii_lowercase : Codes → Codes
ascii_lowercase = map (λ c. if leb b'A' c && leb c b'Z' then c + 32 else c)

abbrev command : Codes
command = codes "rg foo src && cargo test"

split_segments-Cut_example : Cut none command (split_segments command)
split_segments-Cut_example = split_segments-Cut command

analyze_requires_approval_example :
    (analyze ascii_lowercase command).requires_approval
    ≡ any
        (λ s. needs_approval ascii_lowercase s || is_blocked ascii_lowercase s)
        (split_segments (trim command))
analyze_requires_approval_example = analyze_requires_approval ascii_lowercase command

analyze_class_example :
    Classed ascii_lowercase
      (analyze ascii_lowercase command).command_class
      (split_segments (trim command))
analyze_class_example = analyze_class ascii_lowercase command
