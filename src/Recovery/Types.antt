-- ===== src/Recovery/Types.antt =====
-- Signals, actions and feedback: policy.rs, patch_history.rs, and the records of harness/action.rs
-- and harness/state.rs that they use.
use zhongshu.Prelude.{String, ℕ, Bool, List, Option}

pub data RecoverySignalKind : Type 0 where
  no_progress repeated_failure repeated_patch patch_rejected verification_failed tool_timeout
        permission_blocked context_pressure :
      RecoverySignalKind

unfoldable pub kind_rank : RecoverySignalKind → ℕ
kind_rank no_progress = 0
kind_rank repeated_failure = 1
kind_rank repeated_patch = 2
kind_rank patch_rejected = 3
kind_rank verification_failed = 4
kind_rank tool_timeout = 5
kind_rank permission_blocked = 6
kind_rank context_pressure = 7

pub record RecoverySignal : Type 0 where
  pub kind : RecoverySignalKind
  pub count : ℕ
  pub evidence : Option String

pub data RecoveryAction : Type 0 where
  reread_current_files analyze_root_cause narrow_verification_command generate_smaller_patch
        spawn_read_only_diagnostic_worker request_approval_or_alternative compact_context
        stop_with_clear_blocker :
      RecoveryAction

-- The derived order: that of the declaration.
unfoldable pub action_rank : RecoveryAction → ℕ
action_rank reread_current_files = 0
action_rank analyze_root_cause = 1
action_rank narrow_verification_command = 2
action_rank generate_smaller_patch = 3
action_rank spawn_read_only_diagnostic_worker = 4
action_rank request_approval_or_alternative = 5
action_rank compact_context = 6
action_rank stop_with_clear_blocker = 7

pub data FeedbackSource : Type 0 where
  architecture verification recovery tool_loop phase : FeedbackSource

pub data Severity : Type 0 where
  info warning fatal block_tool : Severity

pub record HarnessFeedback : Type 0 where
  pub source : FeedbackSource
  pub severity : Severity
  pub rule_id : String
  pub message : String
  pub suggestion : String
  pub evidence : Option String

pub record RecoveryPolicy : Type 0 where
  pub feedback_cooldown_steps : ℕ
  pub stop_after_no_progress_count : ℕ

-- `RecoveryPolicy::default`.
abbrev pub default_policy : RecoveryPolicy
default_policy = record { feedback_cooldown_steps = 3; stop_after_no_progress_count = 8 }

pub record RecoveryPolicyInput : Type 0 where
  pub signals : List RecoverySignal
  pub current_step : ℕ
  pub last_feedback_step : ℕ

pub record RecoveryDecision : Type 0 where
  pub triggered : Bool
  pub suppressed : Bool
  pub actions : List RecoveryAction
  pub feedback : List HarnessFeedback

pub record FailureSignature : Type 0 where
  pub command_hash : String
  pub error_fingerprint : String
  pub count : ℕ
  pub first_seen_step : ℕ

pub record PatchHistory : Type 0 where
  pub diff_hashes : List String

pub record RecoveryState : Type 0 where
  pub failures : List FailureSignature
  pub last_feedback_step : ℕ
  pub consecutive_no_progress : ℕ
  pub patch_history : PatchHistory
  pub pending_signals : List RecoverySignal
