-- ===== src/Recovery/Check.antt =====
-- `recovery::check`, `record_signal`, `check_no_progress` and the repeated patches.
use zhongshu.Prelude.{
  String, ℕ, ◌+◌, Bool, false, not, ◌&&◌, ◌||◌, List, [], ◌∷◌, ◌++◌, none, some, if◌then◌else◌, leb,
  keep, map, ◌==◌,
}
use Prim.Native.String.{◌++◌ as ◌+++◌}
use zhongshu.Recovery.Types.{
  RecoverySignal, RecoveryState, RecoveryDecision, FailureSignature, HarnessFeedback,
  default_policy, no_progress, repeated_failure, repeated_patch,
}
use zhongshu.Recovery.Policy.{u32, evaluate, is_empty_list}

unfoldable pub check_no_progress : RecoveryState → Bool → Bool → Bool → Bool × RecoveryState
check_no_progress state had_file_read had_successful_edit had_successful_test =
    if had_file_read || had_successful_edit || had_successful_test
    then (false, record state { consecutive_no_progress = 0 })
    else (
      leb 5 (u32 (state.consecutive_no_progress + 1)),
      record state { consecutive_no_progress = u32 (state.consecutive_no_progress + 1) },
    )

-- The last three are equal.
unfoldable pub is_repeated : List String → Bool
is_repeated [] = false
is_repeated (a ∷ []) = false
is_repeated (a ∷ b ∷ []) = false
is_repeated (a ∷ b ∷ c ∷ []) = c == b && b == a
is_repeated (a ∷ b ∷ c ∷ d ∷ rest) = is_repeated (b ∷ c ∷ d ∷ rest)

unfoldable pub repeated_failures : List FailureSignature → List FailureSignature
repeated_failures failures = keep (λ failure. leb 3 failure.count) failures

unfoldable pub failure_signal : FailureSignature → RecoverySignal
failure_signal failure = record {
  kind = repeated_failure;
  count = failure.count;
  evidence = some ("failure fingerprint: " +++ failure.error_fingerprint);
}

-- The signals that the policy is asked about.
unfoldable pub collect_signals : Bool → RecoveryState → List RecoverySignal
unfolding is_repeated repeated_failures failure_signal
collect_signals stuck state =
    state.pending_signals
    ++ (if stuck
        then record { kind = no_progress; count = state.consecutive_no_progress; evidence = none }
          ∷ []
        else [])
    ++ (if is_repeated state.patch_history.diff_hashes
        then record { kind = repeated_patch; count = 3; evidence = none } ∷ []
        else [])
    ++ map failure_signal (repeated_failures state.failures)

unfoldable pub has_nothing : Bool → RecoveryState → Bool
unfolding is_repeated repeated_failures is_empty_list
has_nothing stuck state =
    not stuck
    && not (is_repeated state.patch_history.diff_hashes)
    && is_empty_list (repeated_failures state.failures)
    && is_empty_list state.pending_signals

unfoldable pub respond : ℕ → RecoveryState → RecoveryDecision → List HarnessFeedback × RecoveryState
respond current_step state decision = (
  decision.feedback,
  if decision.triggered then record state { last_feedback_step = current_step } else state,
)

unfoldable pub check_signals : ℕ → Bool × RecoveryState → List HarnessFeedback × RecoveryState
unfolding has_nothing collect_signals evaluate respond
check_signals current_step (stuck, state) =
    if has_nothing stuck state
    then ([], state)
    else respond current_step (record state { pending_signals = [] })
        (evaluate default_policy (record {
          signals = collect_signals stuck state;
          current_step = current_step;
          last_feedback_step = state.last_feedback_step;
        }))

unfoldable pub check : RecoveryState → Bool → Bool → Bool → ℕ → List HarnessFeedback × RecoveryState
unfolding check_no_progress check_signals
check state had_file_read had_successful_edit had_successful_test current_step =
    check_signals current_step
      (check_no_progress state had_file_read had_successful_edit had_successful_test)

unfoldable pub record_signal : RecoverySignal → RecoveryState → RecoveryState
record_signal signal state = record state { pending_signals = state.pending_signals ++ signal ∷ [] }
