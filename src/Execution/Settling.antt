-- ===== src/Execution/Settling.antt =====
-- What `settle_unreachable` does.
use zhongshu.Prelude.{
  String, ℕ, zero, suc, ◌+◌, ◌<◌, Bool, true, false, List, [], ◌∷◌, ◌++◌, some, Option, length, ◌≡◌,
  refl, arith, All, inl, inr, ok, find, find-some, find-none, if◌then◌else◌, Option-cases,
}
use zhongshu.OrderedMap.{lookup, values}
use zhongshu.OrderedMap.Order.{lookup_of_value}
use zhongshu.OrderedMap.Update.{count, count-replace, count-le-length, insert-replace}
use zhongshu.Execution.Graph.{member}
use zhongshu.Execution.Method.{bind_ok}
use zhongshu.Execution.Paths.{member-append}
use zhongshu.Execution.Lifecycle.{moved, set_state}
use zhongshu.Execution.Settle.{
  is_unreachable, skip_node, settle_loop, settle_unreachable, settle_loop_done, settle_loop_more,
}
use zhongshu.Execution.Moves.{state_of, state_of-moved, state_of_found}
use zhongshu.Execution.Readiness.{HasIds}
use zhongshu.Execution.Preserved.{HasIds-move}
use zhongshu.Execution.Types.{ExecutionGraph, ExecutionNode, pending, skipped, state_eq}

-- Against the graph before: the nodes listed were pending and are skipped, the others are as they
-- were.
abbrev pub Skips : ExecutionGraph → List String → ExecutionGraph → Type 0
Skips g skipped_nodes h =
    (j : String)
    → (state_of h j ≡ (if member j skipped_nodes then some skipped else state_of g j))
      × (member j skipped_nodes ≡ true → state_of g j ≡ some pending)

-- No pending node waits for one that ended otherwise than it has to.
abbrev pub IsSettled : ExecutionGraph → Type 0
IsSettled g = All (λ n. is_unreachable g n ≡ false) (values g.nodes)

unfoldable pub is_pending : ExecutionNode → Bool
is_pending node = state_eq node.state pending

unfoldable pub skip_reason : Option String
skip_reason = some "a prerequisite did not succeed"

module _ (g : ExecutionGraph) (node : ExecutionNode) (ids : HasIds g)
    (found : find (is_unreachable g) (values g.nodes) ≡ some node) where
  pub found_pending : (lookup node.id g.nodes ≡ some node) × (node.state ≡ pending)
  unfolding is_unreachable
  found_pending =
      let (i, u) = find-some (is_unreachable g) (values g.nodes) found in
      (lookup_of_value (λ n. n.id) node g.nodes ids.sorted ids.keyed i, ground (arith, u))

  pub skip_found : skip_node node.id g ≡ (ok tt, moved node.id node skipped skip_reason g)
  unfolding skip_node set_state skip_reason
  skip_found = let (e, p) = found_pending in ground (arith, e, p)

  fewer_pending :
      suc (count is_pending (moved node.id node skipped skip_reason g).nodes)
      ≡ count is_pending g.nodes
  unfolding moved is_pending
  fewer_pending =
      let (e, p) = found_pending in
      rw (insert-replace node.id node (record node { state = skipped }) g.nodes ids.sorted e) (
        count-replace is_pending node.id node (record node { state = skipped }) g.nodes e
          (ground (arith, p)) (ground arith))

  pub Skips-more :
      (g₀ : ExecutionGraph) (done : List String)
      → Skips g₀ done g
      → Skips g₀ (done ++ node.id ∷ []) (moved node.id node skipped skip_reason g)
  unfolding member
  Skips-more g₀ done s j =
      let (e, p) = found_pending in
      let m = member-append j done (node.id ∷ []) in
      (
        ground (arith, s j, m, state_of-moved node.id node skipped skip_reason g j),
        ground (arith, s j, m, state_of_found g node.id node e, p),
      )

settle_loop_settles :
    (g₀ : ExecutionGraph) (fuel : ℕ) (done : List String) (g : ExecutionGraph)
    → HasIds g
    → count is_pending g.nodes < fuel
    → Skips g₀ done g
    → (l : List String) × ((settle_loop fuel done g).0 ≡ ok l)
      × Skips g₀ l (settle_loop fuel done g).1
      × IsSettled (settle_loop fuel done g).1
settle_loop_settles g₀ zero done g ids few s = absurd (omega arith)
settle_loop_settles g₀ (suc fuel) done g ids few s =
    elim (Option-cases (find (is_unreachable g) (values g.nodes))) [
      | inl e ↦
          rw (settle_loop_done fuel done g e)
            (done, refl, s, find-none (is_unreachable g) (values g.nodes) e)
      | inr (node, e) ↦
          let h : ExecutionGraph = moved node.id node skipped skip_reason g in
          rw
            (
              settle_loop_more fuel done g node e,
              bind_ok (skip_node node.id) (λ _. settle_loop fuel (done ++ node.id ∷ [])) g h tt
                  (skip_found g node ids e),
            )
            (settle_loop_settles g₀ fuel (done ++ node.id ∷ []) h
              (HasIds-move g node.id node skipped skip_reason (found_pending g node ids e).0 ids)
              (omega (arith, fewer_pending g node ids e)) (Skips-more g node ids e g₀ done s))
    ]

-- In a graph whose nodes are in the order of their ids, each under its own, `settle_unreachable`
-- never fails. The nodes that it lists were pending and are skipped now, every other node is as it
-- was, and afterwards no pending node has, by an edge that is no `finally` edge, a prerequisite
-- that failed, was skipped or was cancelled.
pub settle_unreachable_settles :
    (g : ExecutionGraph)
    → HasIds g
    → (l : List String) × ((settle_unreachable g).0 ≡ ok l)
      × Skips g l (settle_unreachable g).1
      × IsSettled (settle_unreachable g).1
unfolding settle_unreachable member
settle_unreachable_settles g ids =
    settle_loop_settles g (length g.nodes + 1) [] g ids
      (omega (arith, count-le-length is_pending g.nodes)) (λ j. (refl, λ m. cc))
