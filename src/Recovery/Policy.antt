-- ===== src/Recovery/Policy.antt =====
-- `RecoveryPolicy::evaluate`: what is advised on the signals of a step.
use zhongshu.Prelude.{
  String, ℕ, ◌+◌, ◌%◌, Bool, true, false, not, ◌&&◌, ◌||◌, List, [], ◌∷◌, ◌++◌, Option, none, some,
  if◌then◌else◌, eqb, ltb, leb, any, find, ◌==◌,
}
use zhongshu.Recovery.Types.{
  RecoverySignal, RecoverySignalKind, RecoveryAction, RecoveryPolicy, RecoveryPolicyInput,
  RecoveryDecision, HarnessFeedback, warning, recovery, kind_rank, action_rank, no_progress,
  repeated_failure, repeated_patch, patch_rejected, verification_failed, tool_timeout,
  permission_blocked, context_pressure, reread_current_files, analyze_root_cause,
  narrow_verification_command, generate_smaller_patch, spawn_read_only_diagnostic_worker,
  request_approval_or_alternative, compact_context, stop_with_clear_blocker,
}

-- `u32` arithmetic.
abbrev pub u32 : ℕ → ℕ
u32 n = n % 4294967296

unfoldable pub is_kind : RecoverySignalKind → RecoverySignal → Bool
is_kind kind signal = eqb (kind_rank signal.kind) (kind_rank kind)

unfoldable pub has_signal : RecoverySignalKind → List RecoverySignal → Bool
unfolding is_kind
has_signal kind signals = any (is_kind kind) signals

unfoldable pub evidence_of : Option RecoverySignal → Option String
evidence_of none = none
evidence_of (some signal) = signal.evidence

unfoldable pub evidence_for : List RecoverySignalKind → List RecoverySignal → Option String
unfolding is_kind evidence_of
evidence_for kinds signals =
    evidence_of (find (λ signal. any (λ kind. is_kind kind signal) kinds) signals)

unfoldable pub count_of : Option RecoverySignal → ℕ
count_of none = 0
count_of (some signal) = signal.count

-- The actions and the feedback pushed so far.
abbrev pub Advice : Type 0
Advice = List RecoveryAction × List HarnessFeedback

abbrev pub policy_feedback : String → String → String → Option String → HarnessFeedback
policy_feedback rule_id message suggestion evidence = record {
  source = recovery;
  severity = warning;
  rule_id = rule_id;
  message = message;
  suggestion = suggestion;
  evidence = evidence;
}

unfoldable pub advise_repeated : List RecoverySignal → Advice
unfolding has_signal evidence_for
advise_repeated signals =
    if has_signal repeated_patch signals && has_signal repeated_failure signals
    then (
      analyze_root_cause ∷ generate_smaller_patch ∷ spawn_read_only_diagnostic_worker ∷ [],
      policy_feedback "recovery/root_cause_before_more_patches"
            "同一个错误反复出现且 patch 高度相似，建议：先分析错误的根本原因，而不是继续修改同一个函数。"
            "Stop editing the same area until the failure signature has been explained."
            (evidence_for (repeated_patch ∷ repeated_failure ∷ []) signals)
          ∷ [],
    )
    else if has_signal repeated_failure signals
    then (
      analyze_root_cause ∷ narrow_verification_command ∷ [],
      policy_feedback "recovery/repeated_failure" "同一个测试或命令持续失败，建议：先检查失败签名和测试环境，再继续修改代码。"
            "Run a narrower diagnostic command or inspect the failing assertion before patching again."
            (evidence_for (repeated_failure ∷ []) signals)
          ∷ [],
    )
    else if has_signal repeated_patch signals
    then (
      generate_smaller_patch ∷ reread_current_files ∷ [],
      policy_feedback "recovery/repeated_patch" "连续 patch 高度相似，建议：重新读取当前文件并生成更小的修改。"
            "Re-read the target file and avoid repeating the same patch."
            (evidence_for (repeated_patch ∷ []) signals)
          ∷ [],
    )
    else ([], [])

unfoldable pub advise_no_progress : RecoveryPolicy → List RecoverySignal → Advice
unfolding has_signal evidence_for is_kind count_of
advise_no_progress policy signals =
    if has_signal no_progress signals
    then (
      reread_current_files
          ∷ (if leb policy.stop_after_no_progress_count
                (count_of (find (is_kind no_progress) signals))
              then stop_with_clear_blocker ∷ []
              else []),
      policy_feedback "recovery/no_progress" "连续多轮没有取得进展，建议：重新梳理任务目标，确认当前的修改方向是否正确。"
            "Re-read the task and current files before taking another action."
            (evidence_for (no_progress ∷ []) signals)
          ∷ [],
    )
    else ([], [])

-- The `match` on the kind of one signal.
unfoldable pub advise_kind : RecoverySignalKind → Option String → Advice
advise_kind tool_timeout evidence = (
  narrow_verification_command ∷ [],
  policy_feedback "recovery/tool_timeout" "工具执行超时，建议：改用更小范围的命令或检查是否被外部依赖阻塞。"
        "Use a narrower command or split the tool call into smaller steps." evidence
      ∷ [],
)
advise_kind permission_blocked evidence = (
  request_approval_or_alternative ∷ [],
  policy_feedback "recovery/permission_blocked" "操作被权限策略阻止，建议：请求明确授权或选择不需要该权限的方案。"
        "Ask for approval only when the operation is necessary." evidence
      ∷ [],
)
advise_kind context_pressure evidence = (
  compact_context ∷ [],
  policy_feedback "recovery/context_pressure" "上下文压力过高，建议：压缩旧工具结果并保留当前工作集证据。"
        "Compact old evidence before continuing." evidence
      ∷ [],
)
advise_kind patch_rejected evidence = (
  reread_current_files ∷ generate_smaller_patch ∷ [],
  policy_feedback "recovery/patch_rejected" "patch 被拒绝，建议：重新读取文件并缩小修改范围。"
        "Use the patch failure evidence to regenerate a smaller patch." evidence
      ∷ [],
)
advise_kind verification_failed evidence = (
  analyze_root_cause ∷ narrow_verification_command ∷ [],
  policy_feedback "recovery/verification_failed" "验证失败，建议：先定位失败签名，再决定是否继续修改。"
        "Do not claim success until a later verification run passes." evidence
      ∷ [],
)
advise_kind repeated_patch evidence = ([], [])
advise_kind repeated_failure evidence = ([], [])
advise_kind no_progress evidence = ([], [])

abbrev pub also : Advice → Advice → Advice
also (actions, feedback) (more, further) = (actions ++ more, feedback ++ further)

-- The loop over the signals.
unfoldable pub advise_each : List RecoverySignal → Advice
unfolding advise_kind
advise_each [] = ([], [])
advise_each (signal ∷ signals) =
    also (advise_kind signal.kind signal.evidence) (advise_each signals)

-- `actions.sort()`.
unfoldable pub insert_action : RecoveryAction → List RecoveryAction → List RecoveryAction
insert_action action [] = action ∷ []
insert_action action (other ∷ rest) =
    if leb (action_rank action) (action_rank other)
    then action ∷ other ∷ rest
    else other ∷ insert_action action rest

unfoldable pub sort_actions : List RecoveryAction → List RecoveryAction
unfolding insert_action
sort_actions [] = []
sort_actions (action ∷ actions) = insert_action action (sort_actions actions)

-- `actions.dedup()`: the first of neighbours that are equal stays.
unfoldable pub dedup_after : RecoveryAction → List RecoveryAction → List RecoveryAction
dedup_after kept [] = []
dedup_after kept (action ∷ actions) =
    if eqb (action_rank action) (action_rank kept)
    then dedup_after kept actions
    else action ∷ dedup_after action actions

unfoldable pub dedup_actions : List RecoveryAction → List RecoveryAction
unfolding dedup_after
dedup_actions [] = []
dedup_actions (action ∷ actions) = action ∷ dedup_after action actions

-- `feedback.dedup_by(...)`.
unfoldable pub dedup_feedback_after : String → List HarnessFeedback → List HarnessFeedback
dedup_feedback_after kept [] = []
dedup_feedback_after kept (fb ∷ feedback) =
    if fb.rule_id == kept
    then dedup_feedback_after kept feedback
    else fb ∷ dedup_feedback_after fb.rule_id feedback

unfoldable pub dedup_feedback : List HarnessFeedback → List HarnessFeedback
unfolding dedup_feedback_after
dedup_feedback [] = []
dedup_feedback (fb ∷ feedback) = fb ∷ dedup_feedback_after fb.rule_id feedback

unfoldable pub is_empty_list : {A : Type 0} → List A → Bool
is_empty_list [] = true
is_empty_list (x ∷ xs) = false

unfoldable pub decide : Advice → RecoveryDecision
unfolding sort_actions dedup_actions dedup_feedback is_empty_list
decide (actions, feedback) =
    let sorted = dedup_actions (sort_actions actions) in
    let told = dedup_feedback feedback in
    record {
      triggered = not (is_empty_list sorted) || not (is_empty_list told);
      suppressed = false;
      actions = sorted;
      feedback = told;
    }

abbrev pub no_decision : RecoveryDecision
no_decision = record { triggered = false; suppressed = false; actions = []; feedback = [] }

unfoldable pub is_cooling : RecoveryPolicy → RecoveryPolicyInput → Bool
is_cooling policy input =
    ltb 0 input.last_feedback_step
    && ltb input.current_step (u32 (input.last_feedback_step + policy.feedback_cooldown_steps))

unfoldable pub all_advice : RecoveryPolicy → List RecoverySignal → Advice
unfolding advise_repeated advise_no_progress advise_each
all_advice policy signals =
    also (also (advise_repeated signals) (advise_no_progress policy signals)) (advise_each signals)

unfoldable pub evaluate : RecoveryPolicy → RecoveryPolicyInput → RecoveryDecision
unfolding is_empty_list is_cooling all_advice decide
evaluate policy input =
    if is_empty_list input.signals
    then no_decision
    else if is_cooling policy input
    then record no_decision { suppressed = true }
    else decide (all_advice policy input.signals)
