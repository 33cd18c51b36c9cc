-- ===== src/Execution/Passes.antt =====
-- What one round of `run_ready` over the ready nodes does.
use zhongshu.Prelude.{
  String, ◌<◌, Bool, true, false, List, [], ◌∷◌, ◌++◌, Option, none, some, Result, ok, err, inl,
  inr, Bool-cases, ◌⊎◌, ◌≡◌, refl, sym, ap, subst, ◌∙◌, arith, ◌==◌, append_assoc, append-nil,
}
use zhongshu.Execution.Method.{proceed}
use zhongshu.Execution.Graph.{member}
use zhongshu.Execution.Settling.{Skips}
use zhongshu.Execution.Moves.{state_of}
use zhongshu.Execution.Paths.{member-append}
use zhongshu.Execution.Readiness.{HasIds, IsReady}
use zhongshu.Execution.Runs.{pendings, Ran}
use zhongshu.Execution.Artifacts.{IsArtifactFault}
use zhongshu.Execution.Schedule.{Round, run_node, run_nodes, add_skipped}
use zhongshu.Execution.Turns.{Turn, faults, defers, runs, add_executed, run_node-Turn}
use zhongshu.Execution.Types.{
  ExecutionGraph, ExecutionGraphError, ExecutionNode, ExecutionNodeState, NodeExecutionOutcome,
  ExecutionScheduleReport, is_terminal, skipped,
}

-- The state is one in which a node has ended.
abbrev pub has_ended : Option ExecutionNodeState → Bool
has_ended none = false
has_ended (some s) = is_terminal s

-- A report of what has happened since the graph `g`: a node was executed and has ended, or it is
-- skipped, or its state is as it was.
abbrev pub Accounts : ExecutionGraph → ExecutionScheduleReport → ExecutionGraph → Type 0
Accounts g report h =
    (j : String)
    → ((member j report.executed_nodes ≡ true) × (has_ended (state_of h j) ≡ true))
      ⊎ ((member j report.skipped_nodes ≡ true) × (state_of h j ≡ some skipped))
      ⊎ (state_of h j ≡ state_of g j)

-- The nodes are ready, and each is named once.
abbrev pub ReadyOnce : ExecutionGraph → List String → Type 0
ReadyOnce g [] = Unit
ReadyOnce g (node_id ∷ node_ids) =
    IsReady g node_id × (member node_id node_ids ≡ false) × ReadyOnce g node_ids

pub ReadyOnce-Ran :
    (g h : ExecutionGraph) (node_id : String) (node_ids : List String)
    → Ran g node_id h
    → member node_id node_ids ≡ false
    → ReadyOnce g node_ids
    → ReadyOnce h node_ids
unfolding member
ReadyOnce-Ran g h node_id [] ran out ready = tt
ReadyOnce-Ran g h node_id (j ∷ js) ran out ready = (
  ran.after.others j (ground (arith, out)) ready.0,
  ready.1,
  ReadyOnce-Ran g h node_id js ran (ground (arith, out)) ready.2,
)

Accounts-Ran :
    (g₀ g h : ExecutionGraph) (node_id : String) (report : ExecutionScheduleReport)
    → Ran g node_id h
    → Accounts g₀ report g
    → Accounts g₀ (add_executed node_id report) h
unfolding member
Accounts-Ran g₀ g h node_id report ran acc j =
    let m = member-append j report.executed_nodes (node_id ∷ []) in
    elim (Bool-cases (node_id == j)) [
      | inl same ↦ inl (ground (arith, same, m), ground (arith, ran.states j, same, ran.ended))
      | inr other ↦ elim (acc j) [
        | inl (e, t) ↦ inl (ground (arith, m, e), ground (arith, ran.states j, other, t))
        | inr (inl (e, t)) ↦ inr (inl (e, ground (arith, ran.states j, other, t)))
        | inr (inr e) ↦ inr (inr (ground (arith, ran.states j, other, e)))
      ]
    ]

pub Accounts-Skips :
    (g₀ g h : ExecutionGraph) (report : ExecutionScheduleReport) (skipped_nodes : List String)
    → Skips g skipped_nodes h
    → Accounts g₀ report g
    → Accounts g₀ (add_skipped skipped_nodes report) h
Accounts-Skips g₀ g h report skipped_nodes skips acc j =
    let m = member-append j report.skipped_nodes skipped_nodes in
    elim (Bool-cases (member j skipped_nodes)) [
      | inl there ↦ inr (inl (ground (arith, m, there), ground (arith, (skips j).0, there)))
      | inr out ↦ elim (acc j) [
        | inl (e, t) ↦ inl (e, ground (arith, (skips j).0, out, t))
        | inr (inl (e, t)) ↦ inr (inl (ground (arith, m, e), ground (arith, (skips j).0, out, t)))
        | inr (inr e) ↦ inr (inr (ground (arith, (skips j).0, out, e)))
      ]
    ]

-- What the nodes of a round do: one has artifacts that do not fit, or all defer, or one has ended.
pub data Pass {ℓ} {S : Type ℓ} (g₀ g : ExecutionGraph) (node_ids : List String) (r : Round S)
    : Result ExecutionGraphError (Round S) × ExecutionGraph → Type ℓ where
  fails :
      (e : ExecutionGraphError) (report : ExecutionScheduleReport) (h : ExecutionGraph)
      → IsArtifactFault e
      → Accounts g₀ report h
      → Pass g₀ g node_ids r (err e, h)
  waits :
      (s : Round S)
      → s.progressed ≡ r.progressed
      → s.deferred ≡ r.deferred ++ node_ids
      → s.report ≡ r.report
      → Pass g₀ g node_ids r (ok s, g)
  moves :
      (s : Round S) (h : ExecutionGraph)
      → s.progressed ≡ true
      → s.report.stalled ≡ r.report.stalled
      → HasIds h
      → pendings h < pendings g
      → Accounts g₀ s.report h
      → Pass g₀ g node_ids r (ok s, h)

module _ {ℓ} {S : Type ℓ} (g₀ : ExecutionGraph) where
  after_wait :
      (g : ExecutionGraph) (node_id : String) (node_ids : List String) (r s : Round S)
      (result : Result ExecutionGraphError (Round S) × ExecutionGraph)
      → s.progressed ≡ r.progressed
      → s.deferred ≡ r.deferred ++ node_id ∷ []
      → s.report ≡ r.report
      → Pass g₀ g node_ids s result
      → Pass g₀ g (node_id ∷ node_ids) r result
  after_wait g node_id node_ids r s _ p d t (fails e report h fault acc) =
      fails e report h fault acc
  after_wait g node_id node_ids r s _ p d t (waits u p' d' t') =
      waits u (p' ∙ p)
        (d' ∙ ap (λ l. l ++ node_ids) d ∙ append_assoc r.deferred (node_id ∷ []) node_ids) (t' ∙ t)
  after_wait g node_id node_ids r s _ p d t (moves u h p' st ids few acc) =
      moves u h p' (st ∙ ap (λ x. x.stalled) t) ids few acc

  after_move :
      (g h : ExecutionGraph) (node_id : String) (node_ids : List String) (r s : Round S)
      (result : Result ExecutionGraphError (Round S) × ExecutionGraph)
      → s.progressed ≡ true
      → s.report.stalled ≡ r.report.stalled
      → HasIds h
      → pendings h < pendings g
      → Accounts g₀ s.report h
      → Pass g₀ h node_ids s result
      → Pass g₀ g (node_id ∷ node_ids) r result
  after_move g h node_id node_ids r s _ p st ids few acc (fails e report k fault acc') =
      fails e report k fault acc'
  after_move g h node_id node_ids r s _ p st ids few acc (waits u p' d' t') =
      moves u h (p' ∙ p) (ap (λ x. x.stalled) t' ∙ st) ids few
        (subst (λ x. Accounts g₀ x h) (sym t') acc)
  after_move g h node_id node_ids r s _ p st ids few acc (moves u k p' st' ids' few' acc') =
      moves u k p' (st' ∙ st) ids' (omega (arith, few, few')) acc'

  module _ (handler : S → ExecutionNode → NodeExecutionOutcome × S) where
    after_turn :
        (g : ExecutionGraph) (node_id : String) (node_ids : List String) (r : Round S)
        (result : Result ExecutionGraphError (Round S) × ExecutionGraph)
        → HasIds g
        → Accounts g₀ r.report g
        → member node_id node_ids ≡ false
        → ReadyOnce g node_ids
        → ((s : Round S) (h : ExecutionGraph)
            → HasIds h
            → ReadyOnce h node_ids
            → Accounts g₀ s.report h
            → Pass g₀ h node_ids s (run_nodes handler node_ids s h))
        → Turn g node_id r result
        → Pass g₀ g (node_id ∷ node_ids) r (proceed (run_nodes handler node_ids) result.0 result.1)
    after_turn g node_id node_ids r _ ids acc out ready rest (faults e fault) =
        fails e r.report g fault acc
    after_turn g node_id node_ids r _ ids acc out ready rest (defers s p d t) =
        after_wait g node_id node_ids r s _ p d t
          (rest s g ids ready (subst (λ x. Accounts g₀ x g) (sym t) acc))
    after_turn g node_id node_ids r _ ids acc out ready rest (runs s h p t ran) =
        let acc' : Accounts g₀ s.report h =
          subst (λ x. Accounts g₀ x h) (sym t) (Accounts-Ran g₀ g h node_id r.report ran acc) in
        after_move g h node_id node_ids r s _ p (ap (λ x. x.stalled) t) ran.after.ids ran.fewer acc'
          (rest s h ran.after.ids (ReadyOnce-Ran g h node_id node_ids ran out ready) acc')

    pub run_nodes-Pass :
        (node_ids : List String) (r : Round S) (g : ExecutionGraph)
        → HasIds g
        → ReadyOnce g node_ids
        → Accounts g₀ r.report g
        → Pass g₀ g node_ids r (run_nodes handler node_ids r g)
    unfolding run_nodes
    run_nodes-Pass [] r g ids ready acc = waits r refl (sym (append-nil r.deferred)) refl
    run_nodes-Pass (node_id ∷ node_ids) r g ids ready acc =
        after_turn g node_id node_ids r (run_node handler node_id r g) ids acc ready.1 ready.2
          (run_nodes-Pass node_ids) (run_node-Turn handler g ids node_id ready.0 r)
