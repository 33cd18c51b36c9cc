-- ===== src/Recovery/Pending.antt =====
-- What `check` does with the pending signals.
use zhongshu.Prelude.{
  ℕ, Bool, true, false, List, [], ◌∷◌, ◌≡◌, refl, ◌∙◌, arith, Bool-cases, inl, inr,
}
use zhongshu.Recovery.Types.{
  RecoverySignal, RecoveryPolicy, RecoveryPolicyInput, RecoveryDecision, HarnessFeedback,
  RecoveryState, default_policy,
}
use zhongshu.Recovery.Policy.{is_empty_list, is_cooling, evaluate}
use zhongshu.Recovery.Check.{
  check_no_progress, check, check_signals, collect_signals, has_nothing, respond,
}

-- The last feedback is too fresh for another.
abbrev pub is_cooling_at : ℕ → RecoveryState → Bool
is_cooling_at step state = is_cooling default_policy (record {
  signals = state.pending_signals;
  current_step = step;
  last_feedback_step = state.last_feedback_step;
})

empty_of : (signals : List RecoverySignal) → is_empty_list signals ≡ true → signals ≡ []
unfolding is_empty_list
empty_of [] e = refl
empty_of (s ∷ signals) e = absurd (ground (arith, e))

-- What `check` leaves behind.
abbrev pub Forgets : ℕ → RecoveryState → List HarnessFeedback × RecoveryState → Type 0
Forgets step state (feedback, after) =
    (after.pending_signals ≡ [])
    × (is_cooling_at step state ≡ true
        → (feedback ≡ []) × (after.last_feedback_step ≡ state.last_feedback_step))

respond-pending :
    (step : ℕ) (state : RecoveryState) (decision : RecoveryDecision)
    → (respond step state decision).1.pending_signals ≡ state.pending_signals
unfolding respond
respond-pending step state decision = ground arith

evaluate_silent :
    (policy : RecoveryPolicy) (input : RecoveryPolicyInput)
    → is_cooling policy input ≡ true
    → ((evaluate policy input).triggered ≡ false) × ((evaluate policy input).feedback ≡ [])
unfolding evaluate
evaluate_silent policy input c = elim (Bool-cases (is_empty_list input.signals)) [
  | inl e ↦ rw e (refl, refl)
  | inr e ↦ rw (e, c) (refl, refl)
]

respond_silent :
    (step : ℕ) (state : RecoveryState) (decision : RecoveryDecision)
    → (decision.triggered ≡ false) × (decision.feedback ≡ [])
    → ((respond step state decision).0 ≡ [])
      × ((respond step state decision).1.last_feedback_step ≡ state.last_feedback_step)
unfolding respond
respond_silent step state decision (t, f) = (f, ground (arith, t))

check_signals-Forgets :
    (step : ℕ) (stuck : Bool) (state : RecoveryState)
    → Forgets step state (check_signals step (stuck, state))
unfolding check_signals
check_signals-Forgets step stuck state = elim (Bool-cases (has_nothing stuck state)) [
  | inl e ↦
      rw e (
        empty_of state.pending_signals (unfold has_nothing in ground (arith, e)),
        λ c. (refl, refl),
      )
  | inr e ↦ rw e (
    respond-pending step (record state { pending_signals = [] })
        (evaluate default_policy (input stuck)),
    λ c.
        respond_silent step (record state { pending_signals = [] })
          (evaluate default_policy (input stuck))
          (evaluate_silent default_policy (input stuck) (unfold is_cooling in c)),
  )
]
  where
    input : Bool → RecoveryPolicyInput
    input b = record {
      signals = collect_signals b state;
      current_step = step;
      last_feedback_step = state.last_feedback_step;
    }

check_no_progress-last :
    (state : RecoveryState) (read edited tested : Bool)
    → (check_no_progress state read edited tested).1.last_feedback_step ≡ state.last_feedback_step
unfolding check_no_progress
check_no_progress-last state read edited tested = ground arith

-- After `check` no signal is pending. While the last feedback is too fresh, `check` gives no
-- feedback and does not move the step of the last feedback, so that the signals that were pending
-- are lost.
pub check_forgets :
    (state : RecoveryState) (read edited tested : Bool) (step : ℕ)
    → ((check state read edited tested step).1.pending_signals ≡ [])
      × (is_cooling_at step state ≡ true
          → ((check state read edited tested step).0 ≡ [])
            × ((check state read edited tested step).1.last_feedback_step
                ≡ state.last_feedback_step))
unfolding check
check_forgets state read edited tested step =
    let m = check_no_progress state read edited tested in
    let last = check_no_progress-last state read edited tested in
    let h = check_signals-Forgets step m.0 m.1 in
    (
      h.0,
      λ c.
          let (silent, same) = h.1 (unfold is_cooling in ground (arith, c, last)) in
          (silent, same ∙ last),
    )
