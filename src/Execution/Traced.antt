-- ===== src/Execution/Traced.antt =====
-- What `run_ready` does, call of the handler by call.
use zhongshu.Prelude.{
  String, ℕ, zero, suc, ◌+◌, Bool-cases, true, List, [], ◌∷◌, Option, none, some, Result, ok, err,
  length, ◌⊎◌, inl, inr, ◌≡◌, refl, sym, subst,
}
use zhongshu.OrderedMap.{lookup}
use zhongshu.Execution.Method.{Method, proceed}
use zhongshu.Execution.Graph.{ready_node_ids}
use zhongshu.Execution.Settle.{settle_unreachable}
use zhongshu.Execution.Settling.{settle_unreachable_settles}
use zhongshu.Execution.Readiness.{HasIds}
use zhongshu.Execution.Permitted.{MayRun, IsReady-MayRun}
use zhongshu.Execution.Answers.{Answered, run_node-Answered}
use zhongshu.Execution.Turns.{Turn, faults, defers, runs, run_node-Turn}
use zhongshu.Execution.Passes.{ReadyOnce, ReadyOnce-Ran}
use zhongshu.Execution.Rounds.{
  Schedules, run_ready-Schedules, ready_node_ids-ReadyOnce, settles_few,
}
use zhongshu.Execution.Schedule.{
  Round, run_node, run_nodes, new_round, end_round, run_round, run_loop, run_ready, add_skipped,
  empty_report,
}
use zhongshu.Execution.Types.{
  ExecutionGraph, ExecutionGraphError, ExecutionNode, NodeExecutionOutcome, ExecutionScheduleReport,
}

-- From a world and a graph to others: the unreachable nodes are skipped; or the handler is asked, in the
-- world of that moment, with a node that may run in the graph of that moment, and its outcome for this
-- node is carried out.
pub data Follows {ℓ} {S : Type ℓ} (handler : S → ExecutionNode → NodeExecutionOutcome × S)
    (world : S) (g : ExecutionGraph) : S → ExecutionGraph → Type ℓ where
  begins : Follows handler world g world g
  settled :
      (w : S) (h : ExecutionGraph)
      → Follows handler world g w h
      → Follows handler world g w (settle_unreachable h).1
  asked :
      (w : S) (h k : ExecutionGraph) (node_id : String) (n : ExecutionNode)
      → Follows handler world g w h
      → lookup node_id h.nodes ≡ some n
      → MayRun h node_id
      → Answered (handler w n).0 node_id h k
      → Follows handler world g (handler w n).1 k

module _ {ℓ} {S : Type ℓ} (handler : S → ExecutionNode → NodeExecutionOutcome × S) (world : S)
    (g₀ : ExecutionGraph) where
  data Walks : Result ExecutionGraphError (Round S) × ExecutionGraph → Type ℓ where
    walks :
        (s : Round S) (h : ExecutionGraph)
        → HasIds h
        → Follows handler world g₀ s.world h
        → Walks (ok s, h)
    falls :
        (e : ExecutionGraphError) (w : S) (h : ExecutionGraph)
        → Follows handler world g₀ w h
        → Walks (err e, h)

  data Tells
      : Result ExecutionGraphError (Option (ExecutionScheduleReport × S)) × ExecutionGraph
        → Type ℓ where
    answers :
        (report : ExecutionScheduleReport) (w : S) (h : ExecutionGraph)
        → Follows handler world g₀ w h
        → Tells (ok (some (report, w)), h)
    fails :
        (e : ExecutionGraphError) (w : S) (h : ExecutionGraph)
        → Follows handler world g₀ w h
        → Tells (err e, h)
    runs_out : (h : ExecutionGraph) → Tells (ok none, h)

  run_nodes-Walks :
      (node_ids : List String) (r : Round S) (g : ExecutionGraph)
      → HasIds g
      → ReadyOnce g node_ids
      → Follows handler world g₀ r.world g
      → Walks (run_nodes handler node_ids r g)
  unfolding run_nodes
  run_nodes-Walks [] r g ids ready f = walks r g ids f
  run_nodes-Walks (node_id ∷ node_ids) r g ids ready f =
      go (run_node handler node_id r g) refl (run_node-Turn handler g ids node_id ready.0 r)
        (λ s h idh still f'. run_nodes-Walks node_ids s h idh still f')
    where
      told :
          (s : Round S) (h : ExecutionGraph)
          → run_node handler node_id r g ≡ (ok s, h)
          → Follows handler world g₀ s.world h
      told s h e =
          let (n, found, w, answer) = run_node-Answered handler g ids node_id ready.0 r s h e in
          subst (λ x. Follows handler world g₀ x h) (sym w)
            (asked r.world g h node_id n f found (IsReady-MayRun g node_id ready.0) answer)

      go :
          (result : Result ExecutionGraphError (Round S) × ExecutionGraph)
          → run_node handler node_id r g ≡ result
          → Turn g node_id r result
          → ((s : Round S) (h : ExecutionGraph)
              → HasIds h
              → ReadyOnce h node_ids
              → Follows handler world g₀ s.world h
              → Walks (run_nodes handler node_ids s h))
          → Walks (proceed (run_nodes handler node_ids) result.0 result.1)
      go _ e (faults x fault) later = falls x r.world g f
      go _ e (defers s p d t) later = later s g ids ready.2 (told s g e)
      go _ e (runs s h p t ran) later =
          later s h ran.after.ids (ReadyOnce-Ran g h node_id node_ids ran ready.1 ready.2)
            (told s h e)

  module _ (again : S → ExecutionScheduleReport → Method (Option (ExecutionScheduleReport × S)))
      (again-Tells : (w : S) (report : ExecutionScheduleReport) (g : ExecutionGraph)
        → HasIds g
        → Follows handler world g₀ w g
        → Tells (again w report g)) where
    end_round-Tells :
        (result : Result ExecutionGraphError (Round S) × ExecutionGraph)
        → Walks result
        → Tells (proceed (end_round handler again) result.0 result.1)
    unfolding end_round
    end_round-Tells _ (falls e w h f) = fails e w h f
    end_round-Tells _ (walks s h ids f) = elim (Bool-cases s.progressed) [
      | inl e ↦ rw e (again-Tells s.world s.report h ids f)
      | inr e ↦
          rw e
            (answers (record s.report { deferred_nodes = s.deferred; stalled = true }) s.world h f)
    ]

    run_round-Tells :
        (w : S) (report : ExecutionScheduleReport) (node_ids : List String) (h : ExecutionGraph)
        → HasIds h
        → ReadyOnce h node_ids
        → Follows handler world g₀ w h
        → Tells (run_round handler again w report node_ids h)
    unfolding run_round
    run_round-Tells w report [] h ids ready f = answers report w h f
    run_round-Tells w report (node_id ∷ node_ids) h ids ready f =
        end_round-Tells (run_nodes handler (node_id ∷ node_ids) (new_round handler w report) h)
          (run_nodes-Walks (node_id ∷ node_ids) (new_round handler w report) h ids ready f)

  run_loop-Tells :
      (fuel : ℕ) (w : S) (report : ExecutionScheduleReport) (g : ExecutionGraph)
      → HasIds g
      → Follows handler world g₀ w g
      → Tells (run_loop handler fuel w report g)
  unfolding run_loop
  run_loop-Tells zero w report g ids f = runs_out g
  run_loop-Tells (suc fuel) w report g ids f =
      let (l, settles, skips, is_settled) = settle_unreachable_settles g ids in
      let (ids', fewer) = settles_few g ids in
      let h : ExecutionGraph = (settle_unreachable g).1 in
      rw settles (
        run_round-Tells (run_loop handler fuel) (run_loop-Tells fuel) w (add_skipped l report)
          (ready_node_ids h) h ids' (ready_node_ids-ReadyOnce h ids') (settled w g f))

  -- What `run_ready` ends with, and how it came there.
  abbrev pub Ended :
      Result ExecutionGraphError (Option (ExecutionScheduleReport × S)) → ExecutionGraph → Type ℓ
  Ended result h =
      ((report : ExecutionScheduleReport) × (w : S) × (result ≡ ok (some (report, w)))
        × Follows handler world g₀ w h)
      ⊎ ((e : ExecutionGraphError) × (w : S) × (result ≡ err e) × Follows handler world g₀ w h)

  Tells-Ended :
      (result : Result ExecutionGraphError (Option (ExecutionScheduleReport × S)) × ExecutionGraph)
      → Schedules g₀ result
      → Tells result
      → Ended result.0 result.1
  Tells-Ended _ schedules (answers report w h f) = inl (report, w, refl, f)
  Tells-Ended _ schedules (fails e w h f) = inr (e, w, refl, f)
  Tells-Ended _ schedules (runs_out h) = elim schedules [ ]

-- In a graph whose nodes are in the order of their ids, each under its own, `run_ready` ends with a report
-- or an error, and with a graph, and a world of the handler, that come about so, and in no other way:
-- unreachable nodes are skipped; or the handler is asked, in the world that the call before it has
-- left, with a node that is pending and that every edge into it lets run, and its outcome for that node is
-- carried out: a deferred node stays, a cancelled one is cancelled for the reason given, and another runs
-- and then ends in success with its artifacts or in failure for the reason given, and no other node moves.
pub run_ready-Follows {ℓ} :
    {S : Type ℓ} (handler : S → ExecutionNode → NodeExecutionOutcome × S) (world : S)
    (g : ExecutionGraph)
    → HasIds g
    → Ended handler world g (run_ready handler world g).0 (run_ready handler world g).1
unfolding run_ready
run_ready-Follows handler world g ids =
    Tells-Ended handler world g (run_loop handler (length g.nodes + 1) world empty_report g)
      (run_ready-Schedules handler world g ids)
      (run_loop-Tells handler world g (length g.nodes + 1) world empty_report g ids begins)
