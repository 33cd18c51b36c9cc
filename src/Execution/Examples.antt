-- ===== src/Execution/Examples.antt =====
-- Small graphs on which the theorems about the execution graph are put to use.
use zhongshu.Prelude.{
  In, All, ◌++◌, String, true, false, List, [], ◌∷◌, none, some, ok, err, any, ◌↔◌, if◌then◌else◌,
  ◌≡◌, ◌⊎◌, refl, ◌==◌,
}
use zhongshu.Prelude.Text.{is_blank}
use zhongshu.Execution.Graph.{
  empty_graph, new, add_node, add_edge, path_exists, ready_node_ids, member,
}
use zhongshu.Execution.Settle.{settle_unreachable}
use zhongshu.Execution.Lifecycle.{
  start_node, start_ready_batch, complete_node, fail_node, set_state, reconcile_node,
}
use zhongshu.Execution.Steps.{Steps, here, next, adds_node, adds_edge, starts, fails, settles}
use zhongshu.Execution.Safety.{IsSafe, Steps-IsSafe, KeepsFinal, Steps-KeepsFinal, Steps-HasIds}
use zhongshu.Execution.Readiness.{HasIds}
use zhongshu.Execution.Permitted.{IsPermitted, ready_node_ids-IsPermitted}
use zhongshu.Execution.Paths.{Leads, path_exists_iff}
use zhongshu.Execution.Acyclic.{IsAcyclic, Steps-IsAcyclic}
use zhongshu.Execution.History.{IsRecorded, Steps-IsRecorded}
use zhongshu.Execution.Batch.{start_ready_batch_atomic}
use zhongshu.Execution.Doomed.{IsDoomed}
use zhongshu.Execution.Losses.{settle_unreachable_skips}
use zhongshu.Execution.Completed.{
  Moves, IsNew, HasArtifacts, Decides, Admits, complete_node_effect, reconcile_node_effect,
}
use zhongshu.Execution.Moves.{Refused, state_of}
use zhongshu.Execution.Types.{
  ExecutionGraph, ExecutionGraphError, ExecutionNode, ExecutionEdge, ExecutionArtifact,
  ExecutionNodeState, pending, skipped, succeeded, running, recovery_required, confirmed_succeeded,
  pending_node, work, decide, requires,
}

abbrev node_a : ExecutionNode
node_a = pending_node "a" work "search"

abbrev node_b : ExecutionNode
node_b = pending_node "b" decide "decide"

abbrev edge_ab : ExecutionEdge
edge_ab = record { from = "a"; to = "b"; kind = requires }

abbrev wired : ExecutionGraph
wired = (add_edge edge_ab (add_node node_b (add_node node_a (empty_graph "task")).1).1).1

wired-Steps : Steps (empty_graph "task") wired
wired-Steps =
    next (next (next here (adds_node node_a refl)) (adds_node node_b refl)) (adds_edge edge_ab)

empty_HasIds : HasIds (empty_graph "task")
empty_HasIds = record { sorted = tt; keyed = tt }

wired-HasIds : HasIds wired
wired-HasIds = Steps-HasIds wired-Steps empty_HasIds

abbrev started : ExecutionGraph
started = (start_node "a" wired).1

started-Steps : Steps (empty_graph "task") started
started-Steps = next wired-Steps (starts "a")

new_task : new "task" ≡ ok (empty_graph "task")
unfolding new is_blank
new_task = refl

Steps-IsSafe_example : IsSafe started
Steps-IsSafe_example = Steps-IsSafe "task" new_task started-Steps

Steps-IsRecorded_example : IsRecorded started
Steps-IsRecorded_example = Steps-IsRecorded "task" new_task started-Steps

Steps-IsAcyclic_example : IsAcyclic started
Steps-IsAcyclic_example = Steps-IsAcyclic "task" new_task started-Steps

path_exists_iff_example : (path_exists wired.edges "a" "b" ≡ true) ↔ Leads wired.edges "a" "b"
path_exists_iff_example = path_exists_iff wired.edges "a" "b"

ready_node_ids-IsPermitted_example : (any (λ r. r == "a") (ready_node_ids wired) ≡ true) ↔ (
    (state_of wired "a" ≡ some pending)
    × ((e : ExecutionEdge) → In e wired.edges → e.to ≡ "a" → IsPermitted wired e))
ready_node_ids-IsPermitted_example = ready_node_ids-IsPermitted wired "a" wired-HasIds

start_ready_batch_atomic_example :
    ((e : ExecutionGraphError) × (start_ready_batch ("a" ∷ []) wired ≡ (err e, wired)))
    ⊎ (((start_ready_batch ("a" ∷ []) wired).0 ≡ ok tt)
        × ((j : String)
            → state_of (start_ready_batch ("a" ∷ []) wired).1 j
              ≡ (if member j ("a" ∷ []) then some running else state_of wired j)))
start_ready_batch_atomic_example = start_ready_batch_atomic wired ("a" ∷ []) wired-HasIds

-- The first node has failed.
abbrev broken : ExecutionGraph
broken = (fail_node "a" "no match" started).1

broken-HasIds : HasIds broken
broken-HasIds = Steps-HasIds (next started-Steps (fails "a" "no match")) empty_HasIds

Steps-KeepsFinal_example : KeepsFinal broken (settle_unreachable broken).1
Steps-KeepsFinal_example = Steps-KeepsFinal broken-HasIds (next here settles)

settle_unreachable_skips_example :
    (l : List String) × ((settle_unreachable broken).0 ≡ ok l)
    × ((j : String)
        → (member j l ≡ true) ↔ ((state_of broken j ≡ some pending) × IsDoomed broken j))
    × ((j : String)
        → state_of (settle_unreachable broken).1 j
          ≡ (if member j l then some skipped else state_of broken j))
settle_unreachable_skips_example = settle_unreachable_skips broken broken-HasIds

abbrev hits : ExecutionArtifact
hits = record {
  id = "hits";
  producer_node = "a";
  kind = "list";
  summary = "two hits";
  evidence_refs = "log" ∷ [];
  uncertainties = [];
}

complete_node_effect_example :
    Refused started (complete_node "a" (hits ∷ []) started)
    ⊎ (((complete_node "a" (hits ∷ []) started).0 ≡ ok tt)
        × Moves "a" running succeeded none started (complete_node "a" (hits ∷ []) started).1
        × All (IsNew started "a") (hits ∷ [])
        × HasArtifacts (hits ∷ []) started (complete_node "a" (hits ∷ []) started).1
        × ((complete_node "a" (hits ∷ []) started).1.reconciliations ≡ started.reconciliations))
complete_node_effect_example = complete_node_effect "a" (hits ∷ []) started

-- The first node was running when the process ended.
abbrev lost : ExecutionGraph
lost = (set_state "a" running recovery_required none started).1

abbrev evidence : List String
evidence = "log" ∷ []

reconcile_node_effect_example :
    Refused lost (reconcile_node "a" confirmed_succeeded "seen" evidence (hits ∷ []) lost)
    ⊎ (((reconcile_node "a" confirmed_succeeded "seen" evidence (hits ∷ []) lost).0 ≡ ok tt)
        × (is_blank "seen" ≡ false)
        × ¬ (evidence ≡ [])
        × All (λ t. is_blank t ≡ false) evidence
        × (to : ExecutionNodeState) × Decides confirmed_succeeded to
        × Moves "a" recovery_required to
            (some "seen")
            lost
            (reconcile_node "a" confirmed_succeeded "seen" evidence (hits ∷ []) lost).1
        × Admits lost "a" confirmed_succeeded (hits ∷ [])
        × HasArtifacts
            (hits ∷ [])
            lost
            (reconcile_node "a" confirmed_succeeded "seen" evidence (hits ∷ []) lost).1
        × ((reconcile_node "a" confirmed_succeeded "seen" evidence
              (hits ∷ [])
              lost).1.reconciliations
            ≡ lost.reconciliations
              ++ record {
                node_id = "a";
                decision = confirmed_succeeded;
                reason = "seen";
                evidence_refs = evidence;
                transition_sequence = lost.next_sequence;
              }
                ∷ []))
reconcile_node_effect_example =
    reconcile_node_effect "a" confirmed_succeeded "seen" evidence (hits ∷ []) lost
