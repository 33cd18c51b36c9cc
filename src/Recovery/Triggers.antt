-- ===== src/Recovery/Triggers.antt =====
-- When the policy answers.
use zhongshu.Prelude.{
  true, false, not, ◌&&◌, ◌||◌, List, [], ◌∷◌, ◌++◌, any, ◌≡◌, refl, arith, Bool-cases, inl, inr,
}
use zhongshu.Recovery.Types.{
  RecoverySignal, RecoverySignalKind, RecoveryAction, RecoveryPolicy, RecoveryPolicyInput,
  kind_rank, no_progress, repeated_failure, repeated_patch, patch_rejected, verification_failed,
  tool_timeout, permission_blocked, context_pressure,
}
use zhongshu.Recovery.Policy.{
  Advice, is_kind, has_signal, advise_repeated, advise_no_progress, advise_kind, advise_each,
  all_advice, insert_action, sort_actions, dedup_actions, is_empty_list, decide, is_cooling,
  evaluate,
}

append-empty_left :
    (xs ys : List RecoveryAction) → is_empty_list xs ≡ false → is_empty_list (xs ++ ys) ≡ false
unfolding is_empty_list
append-empty_left [] ys e = absurd (ground (arith, e))
append-empty_left (x ∷ xs) ys e = refl

append-empty_right :
    (xs ys : List RecoveryAction) → is_empty_list ys ≡ false → is_empty_list (xs ++ ys) ≡ false
unfolding is_empty_list
append-empty_right [] ys e = e
append-empty_right (x ∷ xs) ys e = refl

-- A list of signals with at least one leads to an action.
module _ (policy : RecoveryPolicy) (s : RecoverySignal) (signals : List RecoverySignal) where
  repeated_acts :
      (has_signal repeated_patch (s ∷ signals) || has_signal repeated_failure (s ∷ signals)) ≡ true
      → is_empty_list (advise_repeated (s ∷ signals)).0 ≡ false
  unfolding advise_repeated is_empty_list
  repeated_acts h = ground (arith, h)

  no_progress_acts :
      has_signal no_progress (s ∷ signals) ≡ true
      → is_empty_list (advise_no_progress policy (s ∷ signals)).0 ≡ false
  unfolding advise_no_progress is_empty_list
  no_progress_acts h = ground (arith, h)

  by_repeated :
      (has_signal repeated_patch (s ∷ signals) || has_signal repeated_failure (s ∷ signals)) ≡ true
      → is_empty_list (all_advice policy (s ∷ signals)).0 ≡ false
  unfolding all_advice
  by_repeated h =
      append-empty_left
        ((advise_repeated (s ∷ signals)).0 ++ (advise_no_progress policy (s ∷ signals)).0)
        (advise_each (s ∷ signals)).0
        (append-empty_left (advise_repeated (s ∷ signals)).0
          (advise_no_progress policy (s ∷ signals)).0 (repeated_acts h))

  by_kind :
      is_empty_list (advise_kind s.kind s.evidence).0 ≡ false
      → is_empty_list (all_advice policy (s ∷ signals)).0 ≡ false
  unfolding all_advice advise_each
  by_kind h =
      append-empty_right
        ((advise_repeated (s ∷ signals)).0 ++ (advise_no_progress policy (s ∷ signals)).0)
        ((advise_kind s.kind s.evidence).0 ++ (advise_each signals).0)
        (append-empty_left (advise_kind s.kind s.evidence).0 (advise_each signals).0 h)

  all_advice-acts :
      (kind : RecoverySignalKind)
      → s.kind ≡ kind
      → is_empty_list (all_advice policy (s ∷ signals)).0 ≡ false
  unfolding all_advice has_signal any is_kind kind_rank advise_kind is_empty_list
  all_advice-acts repeated_patch e = by_repeated (ground (arith, e))
  all_advice-acts repeated_failure e = by_repeated (ground (arith, e))
  all_advice-acts no_progress e =
      append-empty_left
        ((advise_repeated (s ∷ signals)).0 ++ (advise_no_progress policy (s ∷ signals)).0)
        (advise_each (s ∷ signals)).0
        (append-empty_right (advise_repeated (s ∷ signals)).0
          (advise_no_progress policy (s ∷ signals)).0 (no_progress_acts (ground (arith, e))))
  all_advice-acts patch_rejected e = by_kind (ground (arith, e))
  all_advice-acts verification_failed e = by_kind (ground (arith, e))
  all_advice-acts tool_timeout e = by_kind (ground (arith, e))
  all_advice-acts permission_blocked e = by_kind (ground (arith, e))
  all_advice-acts context_pressure e = by_kind (ground (arith, e))

insert_action-full :
    (action : RecoveryAction) (actions : List RecoveryAction)
    → is_empty_list (insert_action action actions) ≡ false
unfolding insert_action is_empty_list
insert_action-full action [] = refl
insert_action-full action (other ∷ rest) = ground arith

sort_actions-full :
    (actions : List RecoveryAction)
    → is_empty_list actions ≡ false
    → is_empty_list (dedup_actions (sort_actions actions)) ≡ false
unfolding sort_actions
sort_actions-full [] e = absurd (unfold is_empty_list in ground (arith, e))
sort_actions-full (action ∷ actions) e =
    dedup (insert_action action (sort_actions actions))
      (insert_action-full action (sort_actions actions))
  where
    dedup :
        (l : List RecoveryAction)
        → is_empty_list l ≡ false
        → is_empty_list (dedup_actions l) ≡ false
    dedup [] f = absurd (unfold is_empty_list in ground (arith, f))
    dedup (a ∷ l) f = unfold is_empty_list dedup_actions in refl

full_triggers :
    (advice : Advice) → is_empty_list advice.0 ≡ false → (decide advice).triggered ≡ true
unfolding decide
full_triggers advice e = ground (arith, sort_actions-full advice.0 e)

answers :
    (policy : RecoveryPolicy) (signals : List RecoverySignal)
    → is_empty_list signals ≡ false
    → (decide (all_advice policy signals)).triggered ≡ true
answers policy [] e = absurd (unfold is_empty_list in ground (arith, e))
answers policy (s ∷ signals) e =
    full_triggers (all_advice policy (s ∷ signals)) (all_advice-acts policy s signals s.kind refl)

-- The policy answers exactly when there is a signal and the last feedback is not too fresh.
pub evaluate_triggers :
    (policy : RecoveryPolicy) (input : RecoveryPolicyInput)
    → (evaluate policy input).triggered
      ≡ (not (is_empty_list input.signals) && not (is_cooling policy input))
unfolding evaluate
evaluate_triggers policy input = elim (Bool-cases (is_empty_list input.signals)) [
  | inl e ↦ rw e refl
  | inr e ↦ elim (Bool-cases (is_cooling policy input)) [
    | inl f ↦ rw (e, f) refl
    | inr f ↦ rw (e, f) (answers policy input.signals e)
  ]
]
