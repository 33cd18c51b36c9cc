-- ===== src/Execution/Permitted.antt =====
-- Which nodes `ready_node_ids` lists, by the states of the nodes that they wait for.
use zhongshu.Prelude.{
  String, Bool, true, List, [], ◌∷◌, some, Option-cases, inl, inr, if◌then◌else◌, ◌==◌, ◌≡◌, refl,
  sym, subst, ◌↔◌, arith, any, All, All-In, In, here, there,
}
use zhongshu.OrderedMap.{lookup}
use zhongshu.Execution.Graph.{is_met, ready_node_ids}
use zhongshu.Execution.Moves.{state_of, state_of_found}
use zhongshu.Execution.Readiness.{HasIds, IsReady, Met, ready_node_ids_iff}
use zhongshu.Execution.Types.{
  ExecutionGraph, ExecutionEdge, ExecutionEdgeKind, ExecutionEdgeKind-discrete, ExecutionNodeState,
  pending, running, succeeded, failed, skipped, cancelled, recovery_required, finally, edge_kind_eq,
  is_terminal, is_success,
}

-- The states of its source in which an edge lets its target run: success, and for a `finally` edge
-- every other end too.
pub data Permits : ExecutionEdgeKind → ExecutionNodeState → Type 0 where
  after_success : (kind : ExecutionEdgeKind) → Permits kind succeeded
  after_failure : Permits finally failed
  after_skip : Permits finally skipped
  after_cancel : Permits finally cancelled
  after_loss : Permits finally recovery_required

ended-Permits : (s : ExecutionNodeState) → is_terminal s ≡ true → Permits finally s
ended-Permits succeeded h = after_success finally
ended-Permits failed h = after_failure
ended-Permits skipped h = after_skip
ended-Permits cancelled h = after_cancel
ended-Permits recovery_required h = after_loss
ended-Permits pending h = cc
ended-Permits running h = cc

abbrev lets : ExecutionEdgeKind → ExecutionNodeState → Bool
lets kind s = if edge_kind_eq kind finally then is_terminal s else is_success s

lets-Permits :
    (kind : ExecutionEdgeKind) (s : ExecutionNodeState) → lets kind s ≡ true → Permits kind s
lets-Permits kind s h = elim (ExecutionEdgeKind-discrete kind finally) [
  | yes e ↦ subst (λ k. Permits k s) (sym e) (ended-Permits s (ground (arith, h, e)))
  | no other ↦
      let e : s ≡ succeeded = ground (arith, h, other) in
      subst (Permits kind) (sym e) (after_success kind)
]

Permits-lets :
    (kind : ExecutionEdgeKind) (s : ExecutionNodeState) → Permits kind s → lets kind s ≡ true
Permits-lets kind s (after_success _) = ground arith
Permits-lets kind s after_failure = ground arith
Permits-lets kind s after_skip = ground arith
Permits-lets kind s after_cancel = ground arith
Permits-lets kind s after_loss = ground arith

-- The source of the edge is in a state that lets the target run.
abbrev pub IsPermitted : ExecutionGraph → ExecutionEdge → Type 0
IsPermitted g e = (s : ExecutionNodeState) × (state_of g e.from ≡ some s) × Permits e.kind s

is_met_permits : (g : ExecutionGraph) (e : ExecutionEdge) → is_met g e ≡ true → IsPermitted g e
unfolding is_met
is_met_permits g e h = elim (Option-cases (lookup e.from g.nodes)) [
  | inl none_there ↦ absurd (ground (arith, h, none_there))
  | inr (source, found) ↦ (
    source.state,
    state_of_found g e.from source found,
    lets-Permits e.kind source.state (rw (is_met, found) at h),
  )
]

IsPermitted-is_met : (g : ExecutionGraph) (e : ExecutionEdge) → IsPermitted g e → is_met g e ≡ true
unfolding is_met
IsPermitted-is_met g e (s, at, permits) = elim (Option-cases (lookup e.from g.nodes)) [
  | inl none_there ↦ absurd (unfold state_of in ground (arith, at, none_there))
  | inr (source, found) ↦
      let f = state_of_found g e.from source found in
      let same_state : source.state ≡ s = ground (arith, f, at) in
      rw (is_met, found, same_state) (Permits-lets e.kind s permits)
]

All-of_In {ℓ κ} : {A : Type ℓ} (P : A → Type κ) (xs : List A) → ((x : A) → In x xs → P x) → All P xs
All-of_In P [] h = tt
All-of_In P (x ∷ xs) h = (h x (here refl), All-of_In P xs (λ y i. h y (there i)))

-- The node is pending, and each edge into it lets it run.
abbrev pub MayRun : ExecutionGraph → String → Type 0
MayRun g node_id =
    (state_of g node_id ≡ some pending)
    × ((e : ExecutionEdge) → In e g.edges → e.to ≡ node_id → IsPermitted g e)

pub IsReady-MayRun : (g : ExecutionGraph) (node_id : String) → IsReady g node_id → MayRun g node_id
IsReady-MayRun g node_id ready = (
  ready.is_pending,
  λ e i into. is_met_permits g e (All-In (Met g node_id) g.edges ready.met i into),
)

-- In a graph whose nodes are in the order of their ids, each under its own, `ready_node_ids` lists a
-- node exactly if it is pending, and each edge into it comes from a node that has succeeded, or is a
-- `finally` edge from a node that has failed, was skipped or cancelled, or needs recovery.
pub ready_node_ids-IsPermitted :
    (g : ExecutionGraph) (node_id : String)
    → HasIds g
    → (any (λ r. r == node_id) (ready_node_ids g) ≡ true) ↔ (
        (state_of g node_id ≡ some pending)
        × ((e : ExecutionEdge) → In e g.edges → e.to ≡ node_id → IsPermitted g e))
ready_node_ids-IsPermitted g node_id ids =
    let (sound, complete) = ready_node_ids_iff g node_id ids in
    (
      λ listed. IsReady-MayRun g node_id (sound listed),
      λ (is_pending, permitted). complete (record {
        is_pending = is_pending;
        met =
            All-of_In (Met g node_id) g.edges
              (λ e i into. IsPermitted-is_met g e (permitted e i into));
      }),
    )
