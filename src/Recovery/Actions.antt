-- ===== src/Recovery/Actions.antt =====
-- The actions of a decision, and when there is a decision at all.
use zhongshu.Prelude.{
  ℕ, ◌≤◌, ◌<◌, Bool, false, ◌||◌, List, [], ◌∷◌, if◌then◌else◌, eqb, leb, any, ◌≡◌, refl, ◌∙◌,
  arith, Bool-cases, inl, inr, subst,
}
use zhongshu.Recovery.Types.{RecoveryAction, RecoveryPolicy, RecoveryPolicyInput, action_rank}
use zhongshu.Recovery.Policy.{
  all_advice, insert_action, sort_actions, dedup_after, dedup_actions, is_empty_list, decide,
  is_cooling, evaluate,
}

-- In the order of their declaration, each once.
abbrev pub RisesFrom : ℕ → List RecoveryAction → Type 0
RisesFrom n [] = Unit
RisesFrom n (action ∷ actions) = (n < action_rank action) × RisesFrom (action_rank action) actions

abbrev pub IsRising : List RecoveryAction → Type 0
IsRising [] = Unit
IsRising (action ∷ actions) = RisesFrom (action_rank action) actions

abbrev SortedFrom : ℕ → List RecoveryAction → Type 0
SortedFrom n [] = Unit
SortedFrom n (action ∷ actions) = (n ≤ action_rank action) × SortedFrom (action_rank action) actions

abbrev pub is_in : RecoveryAction → List RecoveryAction → Bool
is_in action actions = any (λ a. eqb (action_rank a) (action_rank action)) actions

insert_action-SortedFrom :
    (n : ℕ) (action : RecoveryAction) (actions : List RecoveryAction)
    → n ≤ action_rank action
    → SortedFrom n actions
    → SortedFrom n (insert_action action actions)
unfolding insert_action
insert_action-SortedFrom n action [] low h = (low, tt)
insert_action-SortedFrom n action (other ∷ rest) low h =
    elim (Bool-cases (leb (action_rank action) (action_rank other))) [
      | inl e ↦ rw e (low, (ground (arith, e), h.1))
      | inr e ↦
          rw e
            (h.0, insert_action-SortedFrom (action_rank other) action rest (ground (arith, e)) h.1)
    ]

sort_actions-SortedFrom : (actions : List RecoveryAction) → SortedFrom 0 (sort_actions actions)
unfolding sort_actions
sort_actions-SortedFrom [] = tt
sort_actions-SortedFrom (action ∷ actions) =
    insert_action-SortedFrom 0 action (sort_actions actions) (omega arith)
      (sort_actions-SortedFrom actions)

dedup_after-RisesFrom :
    (kept : RecoveryAction) (actions : List RecoveryAction)
    → SortedFrom (action_rank kept) actions
    → RisesFrom (action_rank kept) (dedup_after kept actions)
unfolding dedup_after
dedup_after-RisesFrom kept [] h = tt
dedup_after-RisesFrom kept (action ∷ actions) h =
    elim (Bool-cases (eqb (action_rank action) (action_rank kept))) [
      | inl e ↦ rw e (
          dedup_after-RisesFrom kept actions
            (subst (λ n. SortedFrom n actions) (ground (arith, e)) h.1))
      | inr e ↦ rw e (ground (arith, e, h.0), dedup_after-RisesFrom action actions h.1)
    ]

dedup_actions-IsRising :
    (actions : List RecoveryAction) → SortedFrom 0 actions → IsRising (dedup_actions actions)
unfolding dedup_actions
dedup_actions-IsRising [] h = tt
dedup_actions-IsRising (action ∷ actions) h = dedup_after-RisesFrom action actions h.1

is_in-insert_action :
    (a action : RecoveryAction) (actions : List RecoveryAction)
    → is_in a (insert_action action actions) ≡ is_in a (action ∷ actions)
unfolding insert_action any
is_in-insert_action a action [] = refl
is_in-insert_action a action (other ∷ rest) = ground (arith, is_in-insert_action a action rest)

is_in-sort_actions :
    (a : RecoveryAction) (actions : List RecoveryAction)
    → is_in a (sort_actions actions) ≡ is_in a actions
unfolding sort_actions any
is_in-sort_actions a [] = refl
is_in-sort_actions a (action ∷ actions) =
    is_in-insert_action a action (sort_actions actions)
    ∙ ground (arith, is_in-sort_actions a actions)

is_in-dedup_after :
    (a kept : RecoveryAction) (actions : List RecoveryAction)
    → is_in a (kept ∷ dedup_after kept actions) ≡ is_in a (kept ∷ actions)
unfolding dedup_after any
is_in-dedup_after a kept [] = refl
is_in-dedup_after a kept (action ∷ actions) =
    ground (arith, is_in-dedup_after a kept actions, is_in-dedup_after a action actions)

is_in-dedup_actions :
    (a : RecoveryAction) (actions : List RecoveryAction)
    → is_in a (dedup_actions actions) ≡ is_in a actions
unfolding dedup_actions
is_in-dedup_actions a [] = refl
is_in-dedup_actions a (action ∷ actions) = is_in-dedup_after a action actions

-- The actions of a decision are in the order of their declaration, each once; and unless the policy
-- is silent, because there is no signal or the last feedback is too fresh, they are exactly the
-- actions that its rules have advised.
pub evaluate_actions :
    (policy : RecoveryPolicy) (input : RecoveryPolicyInput)
    → IsRising (evaluate policy input).actions
      × ((a : RecoveryAction)
          → is_in a (evaluate policy input).actions ≡ (
              if is_empty_list input.signals || is_cooling policy input
              then false
              else is_in a (all_advice policy input.signals).0))
unfolding evaluate decide
evaluate_actions policy input = elim (Bool-cases (is_empty_list input.signals)) [
  | inl e ↦ rw e (tt, λ a. unfold any in refl)
  | inr e ↦ elim (Bool-cases (is_cooling policy input)) [
    | inl f ↦ rw (e, f) (tt, λ a. unfold any in refl)
    | inr f ↦
        rw (e, f)
          (
            dedup_actions-IsRising (sort_actions (all_advice policy input.signals).0)
                (sort_actions-SortedFrom (all_advice policy input.signals).0),
            λ a.
                is_in-dedup_actions a (sort_actions (all_advice policy input.signals).0)
                ∙ is_in-sort_actions a (all_advice policy input.signals).0,
          )
  ]
]
