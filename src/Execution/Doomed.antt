-- ===== src/Execution/Doomed.antt =====
-- Which nodes can no longer run, by the states before them.
use zhongshu.Prelude.{
  String, true, not, ◌&&◌, some, ◌≡◌, arith, In, inl, inr, any-keep, any-keep_of, ◌==◌,
  Option-cases,
}
use zhongshu.OrderedMap.{lookup}
use zhongshu.Execution.Settle.{is_unreachable, is_lost}
use zhongshu.Execution.Moves.{state_of, state_of_found}
use zhongshu.Execution.Types.{
  ExecutionGraph, ExecutionNode, ExecutionNodeState, ExecutionEdge, pending, running, succeeded,
  failed, skipped, cancelled, recovery_required, finally, state_eq, edge_kind_eq, is_terminal,
  is_success,
}

-- The node has ended without success, and not in a way that can still turn out well.
pub data HasEnded : ExecutionNodeState → Type 0 where
  has_failed : HasEnded failed
  was_skipped : HasEnded skipped
  was_cancelled : HasEnded cancelled

-- The node has ended so, or it is pending and waits, by an edge that is no `finally` edge, for a node
-- of which the same holds.
pub data IsDoomed (g : ExecutionGraph) : String → Type 0 where
  ended : {j : String} (s : ExecutionNodeState) → state_of g j ≡ some s → HasEnded s → IsDoomed g j
  waits :
      {j : String} (e : ExecutionEdge)
      → state_of g j ≡ some pending
      → In e g.edges
      → e.to ≡ j
      → ¬ (e.kind ≡ finally)
      → IsDoomed g e.from
      → IsDoomed g j

lost_state :
    (s : ExecutionNodeState)
    → (is_terminal s && not (state_eq s recovery_required) && not (is_success s)) ≡ true
    → HasEnded s
lost_state failed h = has_failed
lost_state skipped h = was_skipped
lost_state cancelled h = was_cancelled
lost_state succeeded h = absurd (ground (arith, h))
lost_state recovery_required h = absurd (ground (arith, h))
lost_state pending h = absurd (ground (arith, h))
lost_state running h = absurd (ground (arith, h))

HasEnded-lost :
    (s : ExecutionNodeState)
    → HasEnded s
    → (is_terminal s && not (state_eq s recovery_required) && not (is_success s)) ≡ true
HasEnded-lost s has_failed = ground arith
HasEnded-lost s was_skipped = ground arith
HasEnded-lost s was_cancelled = ground arith

module _ (g : ExecutionGraph) where
  is_lost_sound :
      (e : ExecutionEdge)
      → is_lost g e ≡ true
      → (s : ExecutionNodeState) × (state_of g e.from ≡ some s) × HasEnded s
  unfolding is_lost
  is_lost_sound e h = elim (Option-cases (lookup e.from g.nodes)) [
    | inl f ↦ absurd (ground (arith, h, f))
    | inr (source, f) ↦ (
      source.state,
      state_of_found g e.from source f,
      lost_state source.state (rw (is_lost, f) at h),
    )
  ]

  is_lost_complete :
      (e : ExecutionEdge) (s : ExecutionNodeState)
      → state_of g e.from ≡ some s
      → HasEnded s
      → is_lost g e ≡ true
  unfolding is_lost
  is_lost_complete e s at end = elim (Option-cases (lookup e.from g.nodes)) [
    | inl f ↦ absurd (unfold state_of in ground (arith, at, f))
    | inr (source, f) ↦
        let k = state_of_found g e.from source f in
        let same_state : source.state ≡ s = ground (arith, k, at) in
        rw (is_lost, f, same_state) (HasEnded-lost s end)
  ]

  -- What makes the code skip a node.
  pub unreachable_edge :
      (node : ExecutionNode)
      → is_unreachable g node ≡ true
      → (node.state ≡ pending)
        × (e : ExecutionEdge) × In e g.edges
        × (e.to ≡ node.id)
        × ¬ (e.kind ≡ finally)
        × (s : ExecutionNodeState) × (state_of g e.from ≡ some s)
        × HasEnded s
  unfolding is_unreachable
  unreachable_edge node h =
      let (e, i, p, q) =
        any-keep (λ e. not (edge_kind_eq e.kind finally) && is_lost g e) (λ e. e.to == node.id)
          g.edges (ground (arith, h)) in
      let (state, at, end) = is_lost_sound e (ground (arith, p)) in
      (ground (arith, h), e, i, ground (arith, q), ground (arith, p), state, at, end)

  pub edge_unreachable :
      (node : ExecutionNode) (e : ExecutionEdge) (s : ExecutionNodeState)
      → node.state ≡ pending
      → In e g.edges
      → e.to ≡ node.id
      → ¬ (e.kind ≡ finally)
      → state_of g e.from ≡ some s
      → HasEnded s
      → is_unreachable g node ≡ true
  unfolding is_unreachable
  edge_unreachable node e s is_pending i into other at end =
      let lost = is_lost_complete e s at end in
      ground (
        arith,
        is_pending,
        any-keep_of (λ e. not (edge_kind_eq e.kind finally) && is_lost g e) (λ e. e.to == node.id)
            g.edges i (ground (arith, lost, other)) (ground (arith, into)),
      )
