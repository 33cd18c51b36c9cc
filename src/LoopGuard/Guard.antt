-- ===== src/LoopGuard/Guard.antt =====
-- `check_duplicate`. The hash map of the counts is a list of pairs, of which each key has one.
use zhongshu.Prelude.{
  String, ℕ, ◌+◌, Bool, ◌&&◌, List, [], ◌∷◌, ◌++◌, if◌then◌else◌, ltb, leb, length, ◌==◌, none,
}
use zhongshu.Recovery.Policy.{u32}
use zhongshu.Recovery.Types.{HarnessFeedback, tool_loop, block_tool}

pub record ToolCallFingerprint : Type 0 where
  pub tool_name : String
  pub args_hash : String

pub record ToolLoopState : Type 0 where
  pub recent_calls : List ToolCallFingerprint
  pub counts : List (ToolCallFingerprint × ℕ)

pub data HarnessAction : Type 0 where
  no_action : HarnessAction
  inject_observation : HarnessFeedback → HarnessAction
  block_tool_call : HarnessFeedback → HarnessAction
  block_finalize : HarnessFeedback → HarnessAction
  abort : String → HarnessAction

abbrev pub max_history : ℕ
max_history = 20

abbrev pub consecutive_limit : ℕ
consecutive_limit = 3

abbrev pub total_limit : ℕ
total_limit = 5

unfoldable pub is_same : ToolCallFingerprint → ToolCallFingerprint → Bool
is_same a b = a.tool_name == b.tool_name && a.args_hash == b.args_hash

unfoldable pub pop_front : List ToolCallFingerprint → List ToolCallFingerprint
pop_front [] = []
pop_front (c ∷ calls) = calls

unfoldable pub remember : ToolCallFingerprint → List ToolCallFingerprint → List ToolCallFingerprint
unfolding pop_front
remember fp calls =
    let all_calls = calls ++ fp ∷ [] in
    if ltb max_history (length all_calls) then pop_front all_calls else all_calls

-- `counts.get`, 0 for a key that is not there.
unfoldable pub count_of_call : ToolCallFingerprint → List (ToolCallFingerprint × ℕ) → ℕ
count_of_call fp [] = 0
count_of_call fp ((c, n) ∷ counts) =
    let rest = count_of_call fp counts in if is_same c fp then n else rest

-- `+= 1` on a `u32`.
unfoldable pub bump : ℕ → ℕ
bump n = u32 (n + 1)

-- `*counts.entry(fp).or_insert(0) += 1`.
unfoldable pub count_call :
    ToolCallFingerprint → List (ToolCallFingerprint × ℕ) → List (ToolCallFingerprint × ℕ)
count_call fp [] = (fp, bump 0) ∷ []
count_call fp ((c, n) ∷ counts) =
    let rest = count_call fp counts in if is_same c fp then (c, bump n) ∷ counts else (c, n) ∷ rest

-- The number of calls like `fp` at the end of the list: `iter().rev().take_while(...).count()`.
unfoldable pub trailing : ToolCallFingerprint → ℕ → List ToolCallFingerprint → ℕ
trailing fp run [] = run
trailing fp run (c ∷ calls) = trailing fp (if is_same c fp then run + 1 else 0) calls

-- `format!` of a number is the parameter `show`.
module _ (show_consecutive show_total : ℕ → String → String) where
  unfoldable pub verdict : String → ℕ → ℕ → HarnessAction
  verdict tool_name consecutive total =
      if leb consecutive_limit consecutive
      then block_tool_call (record {
        source = tool_loop;
        severity = block_tool;
        rule_id = "tool/loop_consecutive";
        message = show_consecutive consecutive tool_name;
        suggestion = "先检查之前的调用结果，或者换一种方式获取信息。";
        evidence = none;
      })
      else if leb total_limit total
      then block_tool_call (record {
        source = tool_loop;
        severity = block_tool;
        rule_id = "tool/loop_total";
        message = show_total total tool_name;
        suggestion = "请先阅读已有的信息，不要重复查询。";
        evidence = none;
      })
      else no_action

  unfoldable pub check_duplicate : String → String → ToolLoopState → HarnessAction × ToolLoopState
  unfolding remember count_call count_of_call trailing verdict
  check_duplicate tool_name args_hash state =
      let fp : ToolCallFingerprint = record { tool_name = tool_name; args_hash = args_hash } in
      let recent = remember fp state.recent_calls in
      let counted = count_call fp state.counts in
      (
        verdict tool_name (u32 (trailing fp 0 recent)) (count_of_call fp counted),
        record { recent_calls = recent; counts = counted },
      )
