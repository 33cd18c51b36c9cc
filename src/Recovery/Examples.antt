-- ===== src/Recovery/Examples.antt =====
-- A run that has got stuck, on which the theorems about the recovery are put to use.
use zhongshu.Prelude.{true, false, not, ◌&&◌, ◌||◌, [], ◌∷◌, none, some, if◌then◌else◌, ◌≡◌}
use zhongshu.Recovery.Types.{
  RecoverySignal, RecoveryAction, RecoveryPolicyInput, RecoveryState, default_policy, tool_timeout,
  repeated_patch,
}
use zhongshu.Recovery.Policy.{evaluate, is_empty_list, is_cooling, all_advice}
use zhongshu.Recovery.Check.{check}
use zhongshu.Recovery.Actions.{IsRising, is_in, evaluate_actions}
use zhongshu.Recovery.Triggers.{evaluate_triggers}
use zhongshu.Recovery.Pending.{is_cooling_at, check_forgets}

abbrev timeout : RecoverySignal
timeout = record { kind = tool_timeout; count = 1; evidence = some "shell timed out" }

abbrev same_patch : RecoverySignal
same_patch = record { kind = repeated_patch; count = 3; evidence = none }

abbrev input : RecoveryPolicyInput
input = record { signals = timeout ∷ same_patch ∷ []; current_step = 10; last_feedback_step = 2 }

evaluate_actions_example :
    IsRising (evaluate default_policy input).actions
    × ((a : RecoveryAction)
        → is_in a (evaluate default_policy input).actions ≡ (
            if is_empty_list input.signals || is_cooling default_policy input
            then false
            else is_in a (all_advice default_policy input.signals).0))
evaluate_actions_example = evaluate_actions default_policy input

evaluate_triggers_example :
    (evaluate default_policy input).triggered
    ≡ (not (is_empty_list input.signals) && not (is_cooling default_policy input))
evaluate_triggers_example = evaluate_triggers default_policy input

abbrev state : RecoveryState
state = record {
  failures = [];
  last_feedback_step = 4;
  consecutive_no_progress = 4;
  patch_history = record { diff_hashes = [] };
  pending_signals = timeout ∷ [];
}

check_forgets_example :
    ((check state false false false 5).1.pending_signals ≡ [])
    × (is_cooling_at 5 state ≡ true
        → ((check state false false false 5).0 ≡ [])
          × ((check state false false false 5).1.last_feedback_step ≡ state.last_feedback_step))
check_forgets_example = check_forgets state false false false 5
