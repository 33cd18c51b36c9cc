-- ===== src/LoopGuard/Examples.antt =====
-- A tool that is called again and again, on which the theorem about the guard is put to use.
use zhongshu.Prelude.{String, ℕ, ◌≤◌, true, List, [], ◌∷◌, length, ◌≡◌, arith}
use zhongshu.LoopGuard.Guard.{ToolCallFingerprint}
use zhongshu.LoopGuard.History.{is_block, guard, after, occurrences, fifth_call_blocked}

abbrev show_limit : ℕ → String → String
show_limit n tool_name = tool_name

abbrev grep : ToolCallFingerprint
grep = record { tool_name = "grep"; args_hash = "1f" }

abbrev read : ToolCallFingerprint
read = record { tool_name = "read_file"; args_hash = "2a" }

abbrev calls : List ToolCallFingerprint
calls = grep ∷ read ∷ grep ∷ grep ∷ read ∷ grep ∷ []

fifth_call_blocked_example :
    (length (after show_limit show_limit calls).recent_calls ≤ 20)
    × (4 ≤ occurrences show_limit show_limit grep calls
        → is_block (guard show_limit show_limit grep (after show_limit show_limit calls)).0 ≡ true)
fifth_call_blocked_example = fifth_call_blocked show_limit show_limit grep calls (omega arith)
