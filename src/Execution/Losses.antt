-- ===== src/Execution/Losses.antt =====
-- Exactly which nodes `settle_unreachable` skips.
use zhongshu.Prelude.{
  String, ℕ, zero, suc, ◌+◌, true, false, List, [], ◌∷◌, ◌++◌, some, Result, length, ◌≡◌, refl, sym,
  ap, subst, ◌∙◌, ◌↔◌, arith, All-In, In, inl, inr, ok, find, find-some, if◌then◌else◌,
  Option-cases, Bool-cases,
}
use zhongshu.OrderedMap.{lookup, values}
use zhongshu.OrderedMap.Order.{key_of_lookup, value_of_lookup}
use zhongshu.Execution.Graph.{member}
use zhongshu.Execution.Paths.{member-append}
use zhongshu.Execution.Method.{bind_ok}
use zhongshu.Execution.Lifecycle.{moved}
use zhongshu.Execution.Settle.{
  is_unreachable, skip_node, settle_loop, settle_unreachable, settle_loop_done, settle_loop_more,
}
use zhongshu.Execution.Moves.{state_of, state_of_found}
use zhongshu.Execution.Readiness.{HasIds}
use zhongshu.Execution.Preserved.{HasIds-move}
use zhongshu.Execution.Settling.{
  Skips, IsSettled, Skips-more, found_pending, skip_found, settle_unreachable_settles, skip_reason,
}
use zhongshu.Execution.Types.{
  ExecutionGraph, ExecutionGraphError, ExecutionNode, ExecutionNodeState, ExecutionEdge, pending,
  skipped, finally,
}
use zhongshu.Execution.Doomed.{
  HasEnded, was_skipped, IsDoomed, ended, waits, unreachable_edge, edge_unreachable,
}

-- What the loop has skipped was doomed in the graph before.
abbrev AllDoomed : ExecutionGraph → List String → Type 0
AllDoomed g skipped_nodes = (j : String) → member j skipped_nodes ≡ true → IsDoomed g j

module _ (g : ExecutionGraph) (node : ExecutionNode) (ids : HasIds g)
    (found : find (is_unreachable g) (values g.nodes) ≡ some node) (g₀ : ExecutionGraph)
    (done : List String) (s : Skips g₀ done g) (edges : g.edges ≡ g₀.edges)
    (doomed : AllDoomed g₀ done) where
  source-IsDoomed :
      (j : String) (state : ExecutionNodeState)
      → state_of g j ≡ some state
      → HasEnded state
      → IsDoomed g₀ j
  source-IsDoomed j state at end = elim (Bool-cases (member j done)) [
    | inl m ↦ doomed j m
    | inr m ↦
        let before : state_of g₀ j ≡ some state = ground (arith, s j, m, at) in
        ended state before end
  ]

  found-IsDoomed : IsDoomed g₀ node.id
  found-IsDoomed =
      let (at, is_pending) = found_pending g node ids found in
      let (i, u) = find-some (is_unreachable g) (values g.nodes) found in
      let (p, e, in_edges, into, other, state, source, end) = unreachable_edge g node u in
      let now = state_of_found g node.id node at in
      let before : state_of g₀ node.id ≡ some pending =
        ground (arith, s node.id, now, is_pending) in
      waits e before (subst (In e) edges in_edges) into other
        (source-IsDoomed e.from state source end)

  AllDoomed-more : AllDoomed g₀ (done ++ node.id ∷ [])
  unfolding member
  AllDoomed-more j h = elim (Bool-cases (member j done)) [
    | inl m ↦ doomed j m
    | inr m ↦
        let split = member-append j done (node.id ∷ []) in
        let e : node.id ≡ j = ground (arith, h, split, m) in subst (IsDoomed g₀) e found-IsDoomed
  ]

-- What holds of the graph that the loop leaves.
abbrev Leaves : ExecutionGraph → List String → ExecutionGraph → Type 0
Leaves g₀ l h = AllDoomed g₀ l × HasIds h × (h.edges ≡ g₀.edges)

settle_loop-Leaves :
    (g₀ : ExecutionGraph) (fuel : ℕ) (done : List String) (g : ExecutionGraph)
    → HasIds g
    → Skips g₀ done g
    → g.edges ≡ g₀.edges
    → AllDoomed g₀ done
    → (l : List String) × ((settle_loop fuel done g).0 ≡ ok l)
      × Leaves g₀ l (settle_loop fuel done g).1
settle_loop-Leaves g₀ zero done g ids s edges doomed =
    unfold settle_loop in (done, refl, (doomed, ids, edges))
settle_loop-Leaves g₀ (suc fuel) done g ids s edges doomed =
    elim (Option-cases (find (is_unreachable g) (values g.nodes))) [
      | inl e ↦ rw (settle_loop_done fuel done g e) (done, refl, (doomed, ids, edges))
      | inr (node, e) ↦
          let h : ExecutionGraph = moved node.id node skipped skip_reason g in
          rw
            (
              settle_loop_more fuel done g node e,
              bind_ok (skip_node node.id) (λ _. settle_loop fuel (done ++ node.id ∷ [])) g h tt
                  (skip_found g node ids e),
            )
            (settle_loop-Leaves g₀ fuel (done ++ node.id ∷ []) h
              (HasIds-move g node.id node skipped skip_reason (found_pending g node ids e).0 ids)
              (Skips-more g node ids e g₀ done s) (unfold moved in edges)
              (AllDoomed-more g node ids e g₀ done s edges doomed))
    ]

module _ (g h : ExecutionGraph) (l : List String) (ids : HasIds h) (edges : h.edges ≡ g.edges)
    (s : Skips g l h) (settled : IsSettled h) where
  pending_settled :
      (j : String) (e : ExecutionEdge) (state : ExecutionNodeState)
      → state_of h j ≡ some pending
      → In e g.edges
      → e.to ≡ j
      → ¬ (e.kind ≡ finally)
      → state_of h e.from ≡ some state
      → ¬ HasEnded state
  unfolding state_of
  pending_settled j e state at i into other source end = elim (Option-cases (lookup j h.nodes)) [
    | inl f ↦ absurd (ground (arith, at, f))
    | inr (n, f) ↦
        let key = key_of_lookup (λ n. n.id) j n h.nodes ids.keyed f in
        let u =
          edge_unreachable h n e state (ground (arith, at, f)) (subst (In e) (sym edges) i)
            (ground (arith, into, key)) other source end in
        absurd (
          ground (
            arith,
            u,
            All-In (λ n. is_unreachable h n ≡ false) (values h.nodes) settled
                (value_of_lookup j n h.nodes f),
          ))
  ]

  doomed_ends :
      (j : String)
      → IsDoomed g j
      → (state : ExecutionNodeState) × (state_of h j ≡ some state) × HasEnded state
  doomed_ends j (ended state at end) = elim (Bool-cases (member j l)) [
    | inl m ↦ (skipped, ground (arith, s j, m), was_skipped)
    | inr m ↦ (state, ground (arith, s j, m, at), end)
  ]
  doomed_ends j (waits e at i into other doomed) = elim (Bool-cases (member j l)) [
    | inl m ↦ (skipped, ground (arith, s j, m), was_skipped)
    | inr m ↦
        let (state, source, end) = doomed_ends e.from doomed in
        absurd (pending_settled j e state (ground (arith, s j, m, at)) i into other source end)
  ]

  listed : (j : String) → state_of g j ≡ some pending → IsDoomed g j → member j l ≡ true
  listed j at doomed = elim (Bool-cases (member j l)) [
    | inl m ↦ m
    | inr m ↦
        let (state, after, end) = doomed_ends j doomed in
        let same_state : state ≡ pending = ground (arith, s j, m, at, after) in
        absurd (not_ended (subst HasEnded same_state end))
  ]
    where
      not_ended : ¬ HasEnded pending
      not_ended end = elim end [ ]

-- In a graph whose nodes are in the order of their ids, each under its own, `settle_unreachable` never
-- fails. It lists exactly the nodes that were pending and waited, by edges that are no `finally` edges
-- and over other pending nodes, for a node that had failed, or was skipped or cancelled; these nodes
-- are skipped then, and every other node is as it was.
pub settle_unreachable_skips :
    (g : ExecutionGraph)
    → HasIds g
    → (l : List String) × ((settle_unreachable g).0 ≡ ok l)
      × ((j : String) → (member j l ≡ true) ↔ ((state_of g j ≡ some pending) × IsDoomed g j))
      × ((j : String)
          → state_of (settle_unreachable g).1 j
            ≡ (if member j l then some skipped else state_of g j))
unfolding settle_unreachable member
settle_unreachable_skips g ids =
    let (l, e, skips, settled) = settle_unreachable_settles g ids in
    let (l', e', (doomed, ids', edges)) =
      settle_loop-Leaves g (length g.nodes + 1) [] g ids (λ j. (refl, λ m. cc)) refl (λ j m. cc) in
    let same_list = ok_same (settle_unreachable g).0 l' l e' e in
    let h : ExecutionGraph = (settle_unreachable g).1 in
    (
      l,
      e,
      λ j. (
        λ m. ((skips j).1 m, doomed j (ap (member j) same_list ∙ m)),
        λ (at, d). listed g h l ids' edges skips settled j at d,
      ),
      λ j. (skips j).0,
    )
  where
    ok_same :
        (r : Result ExecutionGraphError (List String)) (a b : List String)
        → r ≡ ok a
        → r ≡ ok b
        → a ≡ b
    ok_same r a b p q = ground (arith, p, q)
