-- ===== src/Execution/Batch.antt =====
-- `start_ready_batch`: all of a batch starts, or nothing changes.
use zhongshu.Prelude.{
  String, true, false, List, [], ◌∷◌, none, some, ◌⊎◌, inl, inr, Option-cases, if◌then◌else◌, ◌==◌,
  ◌≡◌, refl, sym, ap, arith, any, ◌∙◌, ok, err, Result-cases,
}
use zhongshu.OrderedMap.{lookup}
use zhongshu.Execution.Method.{
  Method, reads, bind_ok, bind_err, for_each, for_each-nil, for_each-cons,
}
use zhongshu.Execution.Graph.{ready_node_ids, member}
use zhongshu.Execution.Lifecycle.{
  moved, transition, set_state, is_step, validate_batch, start_ready_batch,
}
use zhongshu.Execution.Moves.{state_of, state_of-moved}
use zhongshu.Execution.Readiness.{HasIds, IsReady-sound}
use zhongshu.Execution.Types.{ExecutionGraph, ExecutionGraphError, ExecutionNode, pending, running}

-- The ids are pending nodes, each named once.
abbrev pub Startable : ExecutionGraph → List String → Type 0
Startable g [] = Unit
Startable g (node_id ∷ node_ids) =
    (state_of g node_id ≡ some pending) × (member node_id node_ids ≡ false) × Startable g node_ids

-- A pending node starts.
pub transition_pending :
    (g : ExecutionGraph) (node_id : String)
    → state_of g node_id ≡ some pending
    → (node : ExecutionNode) × (lookup node_id g.nodes ≡ some node)
      × (node.state ≡ pending)
      × (transition node_id running none g ≡ (ok tt, moved node_id node running none g))
unfolding state_of transition set_state is_step
transition_pending g node_id h = elim (Option-cases (lookup node_id g.nodes)) [
  | inl e ↦ absurd (ground (arith, e))
  | inr (node, e) ↦ (node, e, ground arith, ground arith)
]

pub Startable-moved :
    (node_id : String) (node : ExecutionNode) (g : ExecutionGraph) (node_ids : List String)
    → member node_id node_ids ≡ false
    → Startable g node_ids
    → Startable (moved node_id node running none g) node_ids
unfolding member
Startable-moved node_id node g [] out h = tt
Startable-moved node_id node g (j ∷ js) out h = (
  ground (arith, state_of-moved node_id node running none g j, h.0),
  h.1,
  Startable-moved node_id node g js (ground arith) h.2,
)

started_states :
    (node_id : String) (node : ExecutionNode) (g : ExecutionGraph) (node_ids : List String)
    (j : String)
    → member node_id node_ids ≡ false
    → (if member j node_ids then some running else state_of (moved node_id node running none g) j)
      ≡ (if member j (node_id ∷ node_ids) then some running else state_of g j)
unfolding member
started_states node_id node g node_ids j out =
    ground (arith, state_of-moved node_id node running none g j)

abbrev pub start : String → Method (Unit {0})
start node_id = transition node_id running none

-- What the second loop of `start_ready_batch` does.
pub for_each-starts :
    (g : ExecutionGraph) (node_ids : List String)
    → Startable g node_ids
    → ((for_each start node_ids g).0 ≡ ok tt)
      × ((j : String)
          → state_of (for_each start node_ids g).1 j
            ≡ (if member j node_ids then some running else state_of g j))
unfolding member
for_each-starts g [] h = rw (for_each-nil start g) (refl, λ j. refl)
for_each-starts g (node_id ∷ node_ids) h =
    let (node, found, is_pending, e) = transition_pending g node_id h.0 in
    let g' : ExecutionGraph = moved node_id node running none g in
    let (done, states) =
      for_each-starts g' node_ids (Startable-moved node_id node g node_ids h.1 h.2) in
    rw (for_each-cons start node_id node_ids g g' e)
      (done, λ j. states j ∙ started_states node_id node g node_ids j h.1)

-- What `validate_batch` lets through.
module _ (g : ExecutionGraph) (ready : List String)
    (pends : (node_id : String)
      → member node_id ready ≡ true
      → state_of g node_id ≡ some pending) where
  not-selected :
      (x : String) (selected node_ids : List String)
      → validate_batch g ready selected node_ids ≡ ok tt
      → member x selected ≡ true
      → member x node_ids ≡ false
  unfolding validate_batch member
  not-selected x selected [] h m = refl
  not-selected x selected (y ∷ ys) h m = ground (arith, not-selected x (y ∷ selected) ys)

  pub validate_batch-Startable :
      (selected node_ids : List String)
      → validate_batch g ready selected node_ids ≡ ok tt
      → Startable g node_ids
  unfolding validate_batch
  validate_batch-Startable selected [] h = tt
  validate_batch-Startable selected (y ∷ ys) h = (
    pends y (ground arith),
    not-selected y (y ∷ selected) ys (ground arith) (unfold member in ground arith),
    validate_batch-Startable (y ∷ selected) ys (ground arith),
  )

pub member-any : (a : String) (xs : List String) → member a xs ≡ any (λ x. x == a) xs
unfolding member any
member-any a [] = refl
member-any a (x ∷ xs) = ground (arith, member-any a xs)

pub ready_is_pending :
    (g : ExecutionGraph)
    → HasIds g
    → (node_id : String) → member node_id (ready_node_ids g) ≡ true
    → state_of g node_id ≡ some pending
ready_is_pending g ids node_id m =
    (IsReady-sound g node_id ids (sym (member-any node_id (ready_node_ids g)) ∙ m)).is_pending

pub batch_fails :
    (g : ExecutionGraph) (node_ids : List String) (e : ExecutionGraphError)
    → validate_batch g (ready_node_ids g) [] node_ids ≡ err e
    → start_ready_batch node_ids g ≡ (err e, g)
unfolding start_ready_batch
batch_fails g node_ids e invalid =
    bind_err (reads (λ h. validate_batch h (ready_node_ids h) [] node_ids))
      (λ _. for_each start node_ids) g g e (ap (λ r. (r, g)) invalid)

pub batch_starts :
    (g : ExecutionGraph) (node_ids : List String)
    → validate_batch g (ready_node_ids g) [] node_ids ≡ ok tt
    → start_ready_batch node_ids g ≡ for_each start node_ids g
unfolding start_ready_batch
batch_starts g node_ids valid =
    bind_ok (reads (λ h. validate_batch h (ready_node_ids h) [] node_ids))
      (λ _. for_each start node_ids) g g tt (ap (λ r. (r, g)) valid)

-- In a graph whose nodes are in the order of their ids, each under its own: a batch of nodes either
-- starts as a whole, and then exactly its members have changed, all of them to `running`, or the
-- call returns an error and leaves the graph as it was.
pub start_ready_batch_atomic :
    (g : ExecutionGraph) (node_ids : List String)
    → HasIds g
    → ((e : ExecutionGraphError) × (start_ready_batch node_ids g ≡ (err e, g)))
      ⊎ (((start_ready_batch node_ids g).0 ≡ ok tt)
          × ((j : String)
              → state_of (start_ready_batch node_ids g).1 j
                ≡ (if member j node_ids then some running else state_of g j)))
start_ready_batch_atomic g node_ids ids =
    elim (Result-cases (validate_batch g (ready_node_ids g) [] node_ids)) [
      | inl (done, valid) ↦ inr (
          rw (batch_starts g node_ids valid) (
            for_each-starts g node_ids (
              validate_batch-Startable g (ready_node_ids g) (ready_is_pending g ids) [] node_ids
                valid)))
      | inr (e, invalid) ↦ inl (e, batch_fails g node_ids e invalid)
    ]
