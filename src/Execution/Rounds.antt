-- ===== src/Execution/Rounds.antt =====
-- `run_ready` ends, and how.
use zhongshu.Prelude.{
  String, ℕ, zero, suc, ◌+◌, ◌≤◌, ◌<◌, Bool, true, false, List, [], ◌∷◌, ◌++◌, map, keep, Option,
  some, Result, ok, err, inl, inr, Bool-cases, length, ◌≡◌, refl, sym, ap, subst, ◌∙◌, arith,
  str_lt_irrefl,
}
use zhongshu.OrderedMap.{Map, values}
use zhongshu.OrderedMap.Order.{IsSorted, Keyed, Above}
use zhongshu.OrderedMap.Update.{count-le-length}
use zhongshu.Execution.Method.{Method, proceed}
use zhongshu.Execution.Graph.{member, is_ready, ready_node_ids}
use zhongshu.Execution.Settle.{settle_unreachable}
use zhongshu.Execution.Settling.{IsSettled, settle_unreachable_settles, is_pending}
use zhongshu.Execution.Batch.{member-any}
use zhongshu.Execution.Preserved.{settle_unreachable_keeps}
use zhongshu.Execution.Readiness.{HasIds, IsReady, IsReady-sound}
use zhongshu.Execution.Runs.{pendings, After-move}
use zhongshu.Execution.Artifacts.{IsArtifactFault}
use zhongshu.Execution.Passes.{
  ReadyOnce, Accounts, Accounts-Skips, Pass, fails, waits, moves, run_nodes-Pass,
}
use zhongshu.Execution.Schedule.{
  Round, run_nodes, new_round, end_round, run_round, run_loop, run_ready, add_skipped, empty_report,
}
use zhongshu.Execution.Types.{
  ExecutionGraph, ExecutionGraphError, ExecutionNode, NodeExecutionOutcome, ExecutionScheduleReport,
}

-- The ids of the nodes of a map that pass a test.
abbrev ids_of : (ExecutionNode → Bool) → Map ExecutionNode → List String
ids_of p m = map (λ n. n.id) (keep p (values m))

-- A key above those of a map is no id of a value in it.
Above-ids :
    (k : String) (p : ExecutionNode → Bool) (m : Map ExecutionNode)
    → Above k m
    → Keyed (λ n. n.id) m
    → member k (ids_of p m) ≡ false
unfolding member keep values
Above-ids k p [] a keyed = refl
Above-ids k p ((j, n) ∷ m) a keyed =
    let rest : member k (ids_of p m) ≡ false = Above-ids k p m a.1 keyed.1 in
    elim (Bool-cases (p n)) [
      | inl e ↦ rw e (ground (arith, rest, a.0, keyed.0, str_lt_irrefl k))
      | inr e ↦ rw e rest
    ]

ready_once :
    (g : ExecutionGraph) (p : ExecutionNode → Bool) (m : Map ExecutionNode)
    → IsSorted m
    → Keyed (λ n. n.id) m
    → ((j : String) → member j (ids_of p m) ≡ true → IsReady g j)
    → ReadyOnce g (ids_of p m)
unfolding member keep values
ready_once g p [] sorted keyed ready = tt
ready_once g p ((j, n) ∷ m) sorted keyed ready = elim (Bool-cases (p n)) [
  | inl e ↦ rw e (
    ready n.id (rw e (ground arith)),
    ap (λ i. member i (ids_of p m)) (sym keyed.0) ∙ Above-ids j p m sorted.0 keyed.1,
    ready_once g p m sorted.1 keyed.1 (λ i there. ready i (rw e (ground (arith, there)))),
  )
  | inr e ↦ rw e (ready_once g p m sorted.1 keyed.1 (λ i there. ready i (rw e there)))
]

pub ready_node_ids-ReadyOnce : (g : ExecutionGraph) → HasIds g → ReadyOnce g (ready_node_ids g)
unfolding ready_node_ids
ready_node_ids-ReadyOnce g ids =
    ready_once g (is_ready g) g.nodes ids.sorted ids.keyed
      (λ j there. IsReady-sound g j ids (sym (member-any j (ready_node_ids g)) ∙ there))

-- How `run_ready` ends: some artifacts do not fit; or no node is ready; or the handler has deferred all
-- the nodes that are ready. What has happened to the nodes is what the report says.
pub data Schedules {ℓ} {S : Type ℓ} (g : ExecutionGraph)
    : Result ExecutionGraphError (Option (ExecutionScheduleReport × S)) × ExecutionGraph
      → Type ℓ where
  stops :
      (e : ExecutionGraphError) (report : ExecutionScheduleReport) (h : ExecutionGraph)
      → IsArtifactFault e
      → Accounts g report h
      → Schedules g (err e, h)
  rests :
      (report : ExecutionScheduleReport) (world : S) (h : ExecutionGraph)
      → report.stalled ≡ false
      → ready_node_ids h ≡ []
      → IsSettled h
      → Accounts g report h
      → Schedules g (ok (some (report, world)), h)
  stalls :
      (report : ExecutionScheduleReport) (world : S) (h : ExecutionGraph)
      → report.stalled ≡ true
      → report.deferred_nodes ≡ ready_node_ids h
      → IsSettled h
      → Accounts g report h
      → Schedules g (ok (some (report, world)), h)

pub settles_few :
    (g : ExecutionGraph)
    → HasIds g
    → HasIds (settle_unreachable g).1 × (pendings (settle_unreachable g).1 ≤ pendings g)
settles_few g ids =
    settle_unreachable_keeps (λ h. HasIds h × (pendings h ≤ pendings g))
      (record {
        move = λ h node_id node to reason found valid met p.
            let a = After-move h p.0 node_id node to reason found valid in
            (a.ids, omega (arith, a.few, p.1));
      })
      g (ids, omega arith)

module _ {ℓ} {S : Type ℓ} (handler : S → ExecutionNode → NodeExecutionOutcome × S)
    (g₀ : ExecutionGraph) where
  module _ (again : S → ExecutionScheduleReport → Method (Option (ExecutionScheduleReport × S)))
      (h : ExecutionGraph) (settled : IsSettled h)
      (goes_on : (world : S) (report : ExecutionScheduleReport) (k : ExecutionGraph)
        → HasIds k
        → pendings k < pendings h
        → report.stalled ≡ false
        → Accounts g₀ report k
        → Schedules g₀ (again world report k)) where
    end_round-Schedules :
        (node_ids : List String) (r : Round S)
        (result : Result ExecutionGraphError (Round S) × ExecutionGraph)
        → ready_node_ids h ≡ node_ids
        → r.report.stalled ≡ false
        → r.progressed ≡ false
        → r.deferred ≡ []
        → Accounts g₀ r.report h
        → Pass g₀ h node_ids r result
        → Schedules g₀ (proceed (end_round handler again) result.0 result.1)
    unfolding end_round
    end_round-Schedules node_ids r _ all going p d acc (fails e report k fault acc') =
        stops e report k fault acc'
    end_round-Schedules node_ids r _ all going p d acc (waits s p' d' t) = rw (p' ∙ p) (
        stalls (record s.report { deferred_nodes = s.deferred; stalled = true }) s.world h refl
          (d' ∙ ap (λ l. l ++ node_ids) d ∙ sym all) settled
          (subst (λ x. Accounts g₀ (record x { deferred_nodes = s.deferred; stalled = true }) h)
            (sym t) acc))
    end_round-Schedules node_ids r _ all going p d acc (moves s k p' st ids few acc') =
        rw p' (goes_on s.world s.report k ids few (st ∙ going) acc')

    run_round-Schedules :
        (world : S) (report : ExecutionScheduleReport) (node_ids : List String)
        → HasIds h
        → ready_node_ids h ≡ node_ids
        → report.stalled ≡ false
        → Accounts g₀ report h
        → ReadyOnce h node_ids
        → Schedules g₀ (run_round handler again world report node_ids h)
    unfolding run_round
    run_round-Schedules world report [] ids all going acc ready =
        rests report world h going all settled acc
    run_round-Schedules world report (node_id ∷ node_ids) ids all going acc ready =
        let r : Round S = new_round handler world report in
        end_round-Schedules (node_id ∷ node_ids) r (run_nodes handler (node_id ∷ node_ids) r h) all
          going refl refl acc (run_nodes-Pass g₀ handler (node_id ∷ node_ids) r h ids ready acc)

  run_loop-Schedules :
      (fuel : ℕ) (world : S) (report : ExecutionScheduleReport) (g : ExecutionGraph)
      → HasIds g
      → pendings g < fuel
      → report.stalled ≡ false
      → Accounts g₀ report g
      → Schedules g₀ (run_loop handler fuel world report g)
  unfolding run_loop
  run_loop-Schedules zero world report g ids few going acc = absurd (omega (arith, few))
  run_loop-Schedules (suc fuel) world report g ids few going acc =
      let (l, settles, skips, settled) = settle_unreachable_settles g ids in
      let (ids', fewer) = settles_few g ids in
      let h : ExecutionGraph = (settle_unreachable g).1 in
      rw settles (
        run_round-Schedules (run_loop handler fuel) h settled
          (λ w rep k idk fewk still acck.
            run_loop-Schedules fuel w rep k idk (omega (arith, few, fewer, fewk)) still acck)
          world (add_skipped l report) (ready_node_ids h) ids' refl going
          (Accounts-Skips g₀ g h report l skips acc) (ready_node_ids-ReadyOnce h ids'))

-- In a graph whose nodes are in the order of their ids, each under its own, `run_ready` ends, whatever
-- the handler answers. It fails only by artifacts that name another producer or an id that is taken.
-- Else either no node is ready in the end, or the report says that the run is stalled, and then lists
-- all the nodes that are ready, which the handler has deferred; and no pending node has, by an edge
-- that is no `finally` edge, a prerequisite that failed, was skipped or was cancelled. By the report, also on an error, each node was executed and
-- has ended, or is skipped, or else it is in the state in which it was.
pub run_ready-Schedules {ℓ} :
    {S : Type ℓ} (handler : S → ExecutionNode → NodeExecutionOutcome × S) (world : S)
    (g : ExecutionGraph)
    → HasIds g
    → Schedules g (run_ready handler world g)
unfolding run_ready
run_ready-Schedules handler world g ids =
    run_loop-Schedules handler g (length g.nodes + 1) world empty_report g ids
      (omega (arith, count-le-length is_pending g.nodes)) refl (λ j. inr (inr refl))
