-- ===== src/Execution/Completed.antt =====
-- What `complete_node` and `reconcile_node` leave, field by field.
use zhongshu.Prelude.{
  String, ◌+◌, Bool, true, false, ◌||◌, List, [], ◌∷◌, ◌++◌, Option, none, some, ◌⊎◌, inl, inr, ok,
  if◌then◌else◌, ◌==◌, ◌≡◌, refl, ap, subst, ◌∙◌, arith, is_blank, any, All,
}
use zhongshu.OrderedMap.{Map, lookup, contains_key, insert, insert_all}
use zhongshu.OrderedMap.Laws.{lookup-insert}
use zhongshu.Execution.Lifecycle.{
  moved, validate_artifacts, add_artifacts, complete_node, resolution, check_decision, is_empty,
  add_reconciliation, reconcile_node,
}
use zhongshu.Execution.Moves.{Refused, state_of, state_of-moved, state_of_found}
use zhongshu.Execution.Completion.{complete_node_result, reconcile_node_result}
use zhongshu.Execution.Types.{
  ExecutionGraph, ExecutionNode, ExecutionNodeState, ExecutionArtifact,
  ExecutionReconciliationDecision, running, succeeded, failed, recovery_required,
  confirmed_succeeded, confirmed_failed,
}

-- Of the artifacts of one id the last is kept, and an artifact from before where there is none.
unfoldable pub last_artifact :
    String → List ExecutionArtifact → Option ExecutionArtifact → Option ExecutionArtifact
last_artifact id [] before = before
last_artifact id (artifact ∷ artifacts) before =
    let this = last_artifact id artifacts (some artifact) in
    let other = last_artifact id artifacts before in if artifact.id == id then this else other

-- The artifact names the node as its producer, and its id is new in the graph.
abbrev pub IsNew : ExecutionGraph → String → ExecutionArtifact → Type 0
IsNew g node_id artifact =
    (artifact.producer_node ≡ node_id) × (lookup artifact.id g.artifacts ≡ none)

-- The node alone has moved, from a state to another, and the move is the last on record.
pub record Moves (node_id : String) (from to : ExecutionNodeState) (reason : Option String)
    (g h : ExecutionGraph) : Type 0 where
  pub before : state_of g node_id ≡ some from
  pub states : (j : String) → state_of h j ≡ (if node_id == j then some to else state_of g j)
  pub transitions :
      h.transitions
      ≡ g.transitions
        ++ record {
          sequence = g.next_sequence;
          node_id = node_id;
          from = from;
          to = to;
          reason = reason;
        }
          ∷ []
  pub next_sequence : h.next_sequence ≡ g.next_sequence + 1
  pub edges : h.edges ≡ g.edges

-- The artifacts are the graph's, with those of the call.
abbrev pub HasArtifacts : List ExecutionArtifact → ExecutionGraph → ExecutionGraph → Type 0
HasArtifacts artifacts g h =
    (id : String) → lookup id h.artifacts ≡ last_artifact id artifacts (lookup id g.artifacts)

lookup-insert_all :
    (artifacts : List ExecutionArtifact) (id : String) (entries : Map ExecutionArtifact)
    → lookup id (insert_all (λ a. a.id) entries artifacts)
      ≡ last_artifact id artifacts (lookup id entries)
unfolding insert_all last_artifact
lookup-insert_all [] id entries = refl
lookup-insert_all (artifact ∷ artifacts) id entries =
    lookup-insert_all artifacts id (insert artifact.id artifact entries)
    ∙ ap (last_artifact id artifacts) (lookup-insert artifact.id id artifact entries)
    ∙ split artifacts (artifact.id == id)
  where
    split :
        (rest : List ExecutionArtifact) (here : Bool)
        → last_artifact id rest (if here then some artifact else lookup id entries) ≡ (
            if here
            then last_artifact id rest (some artifact)
            else last_artifact id rest (lookup id entries))
    split rest true = refl
    split rest false = refl

validate_artifacts-IsNew :
    (g : ExecutionGraph) (node_id : String) (artifacts : List ExecutionArtifact)
    → validate_artifacts g node_id artifacts ≡ ok tt
    → All (IsNew g node_id) artifacts
unfolding validate_artifacts contains_key
validate_artifacts-IsNew g node_id [] h = tt
validate_artifacts-IsNew g node_id (artifact ∷ artifacts) h = (
  (ground (arith, h), ground (arith, h)),
  validate_artifacts-IsNew g node_id artifacts (ground (arith, h)),
)

pub moved-Moves :
    (node_id : String) (node : ExecutionNode) (to : ExecutionNodeState) (reason : Option String)
    (g : ExecutionGraph)
    → lookup node_id g.nodes ≡ some node
    → Moves node_id node.state to reason g (moved node_id node to reason g)
unfolding moved
moved-Moves node_id node to reason g found = record {
  before = state_of_found g node_id node found;
  states = state_of-moved node_id node to reason g;
  transitions = refl;
  next_sequence = refl;
  edges = refl;
}

-- `complete_node` is refused and changes nothing, or the node was running and alone is succeeded now,
-- which is the last move on record; the artifacts name it as their producer, and their ids were new;
-- the graph has its artifacts of before and, of those of the call, the last of each id; and the
-- reconciliations are as they were.
pub complete_node_effect :
    (node_id : String) (artifacts : List ExecutionArtifact) (g : ExecutionGraph)
    → Refused g (complete_node node_id artifacts g)
      ⊎ (((complete_node node_id artifacts g).0 ≡ ok tt)
          × Moves node_id running succeeded none g (complete_node node_id artifacts g).1
          × All (IsNew g node_id) artifacts
          × HasArtifacts artifacts g (complete_node node_id artifacts g).1
          × ((complete_node node_id artifacts g).1.reconciliations ≡ g.reconciliations))
unfolding add_artifacts moved
complete_node_effect node_id artifacts g = elim (complete_node_result node_id artifacts g) [
  | inl refused ↦ inl refused
  | inr (node, found, is_running, valid, e) ↦
      let m : Moves node_id node.state succeeded none g (moved node_id node succeeded none g) =
        moved-Moves node_id node succeeded none g found in
      rw e (
        inr (
          refl,
          subst
              (λ s.
                Moves node_id s succeeded none g
                  (add_artifacts artifacts (moved node_id node succeeded none g)))
              is_running
              (record {
                before = m.before;
                states = unfold add_artifacts state_of in m.states;
                transitions = m.transitions;
                next_sequence = refl;
                edges = refl;
              }),
          validate_artifacts-IsNew g node_id artifacts valid,
          λ id. lookup-insert_all artifacts id g.artifacts,
          refl,
        ))
]

-- The state that a decision gives the node.
pub data Decides : ExecutionReconciliationDecision → ExecutionNodeState → Type 0 where
  to_succeeded : Decides confirmed_succeeded succeeded
  to_failed : Decides confirmed_failed failed

-- The artifacts that a decision may come with.
pub data Admits (g : ExecutionGraph) (node_id : String)
    : ExecutionReconciliationDecision → List ExecutionArtifact → Type 0 where
  new_artifacts :
      (artifacts : List ExecutionArtifact)
      → All (IsNew g node_id) artifacts
      → Admits g node_id confirmed_succeeded artifacts
  no_artifacts : Admits g node_id confirmed_failed []

resolution-Decides :
    (decision : ExecutionReconciliationDecision) → Decides decision (resolution decision)
unfolding resolution
resolution-Decides confirmed_succeeded = to_succeeded
resolution-Decides confirmed_failed = to_failed

check_decision-Admits :
    (g : ExecutionGraph) (node_id : String) (decision : ExecutionReconciliationDecision)
    (artifacts : List ExecutionArtifact)
    → check_decision g node_id decision artifacts ≡ ok tt
    → Admits g node_id decision artifacts
unfolding check_decision
check_decision-Admits g node_id confirmed_failed [] h = no_artifacts
check_decision-Admits g node_id confirmed_failed (artifact ∷ artifacts) h =
    absurd (ground (arith, h))
check_decision-Admits g node_id confirmed_succeeded artifacts h =
    new_artifacts artifacts (validate_artifacts-IsNew g node_id artifacts h)

not_blank :
    (texts : List String)
    → (is_empty texts || any is_blank texts) ≡ false
    → ¬ (texts ≡ []) × All (λ t. is_blank t ≡ false) texts
unfolding is_empty any
not_blank [] h = absurd (ground (arith, h))
not_blank (text ∷ texts) h = ((λ e. cc), none_blank (text ∷ texts) (ground (arith, h)))
  where
    none_blank :
        (rest : List String) → any is_blank rest ≡ false → All (λ t. is_blank t ≡ false) rest
    none_blank [] k = tt
    none_blank (t ∷ rest) k = (ground (arith, k), none_blank rest (ground (arith, k)))

-- `reconcile_node` is refused and changes nothing, or: the reason is no blank, and there is evidence,
-- none of it blank; the node needed recovery, and it alone has moved, to `succeeded` or `failed` as the
-- decision says, for that reason; a decision for failure comes without artifacts, and another with
-- artifacts that name the node and are new; the graph has its artifacts of before and, of those of
-- the call, the last of each id; and the last reconciliation on record has the node, the decision, the
-- reason, the evidence, and the sequence number of the move.
pub reconcile_node_effect :
    (node_id : String) (decision : ExecutionReconciliationDecision) (reason : String)
    (evidence_refs : List String) (artifacts : List ExecutionArtifact) (g : ExecutionGraph)
    → Refused g (reconcile_node node_id decision reason evidence_refs artifacts g)
      ⊎ (((reconcile_node node_id decision reason evidence_refs artifacts g).0 ≡ ok tt)
          × (is_blank reason ≡ false)
          × ¬ (evidence_refs ≡ [])
          × All (λ t. is_blank t ≡ false) evidence_refs
          × (to : ExecutionNodeState) × Decides decision to
          × Moves node_id recovery_required to
              (some reason)
              g
              (reconcile_node node_id decision reason evidence_refs artifacts g).1
          × Admits g node_id decision artifacts
          × HasArtifacts artifacts g
              (reconcile_node node_id decision reason evidence_refs artifacts g).1
          × ((reconcile_node node_id decision reason evidence_refs artifacts g).1.reconciliations
              ≡ g.reconciliations
                ++ record {
                  node_id = node_id;
                  decision = decision;
                  reason = reason;
                  evidence_refs = evidence_refs;
                  transition_sequence = g.next_sequence;
                }
                  ∷ []))
unfolding add_artifacts add_reconciliation moved
reconcile_node_effect node_id decision reason evidence_refs artifacts g =
    elim (reconcile_node_result node_id decision reason evidence_refs artifacts g) [
      | inl refused ↦ inl refused
      | inr (told, shown, node, found, lost, valid, e) ↦
          let to = resolution decision in
          let (some_evidence, no_blank) = not_blank evidence_refs shown in
          let m : Moves node_id node.state to (some reason) g
              (moved node_id node to (some reason) g) =
            moved-Moves node_id node to (some reason) g found in
          let h : ExecutionGraph =
            add_reconciliation node_id decision reason evidence_refs g.next_sequence
              (add_artifacts artifacts (moved node_id node to (some reason) g)) in
          rw e (
            inr (
              refl,
              told,
              some_evidence,
              no_blank,
              to,
              resolution-Decides decision,
              subst (λ s. Moves node_id s to (some reason) g h) lost
                  (record {
                    before = m.before;
                    states = unfold add_artifacts add_reconciliation state_of in m.states;
                    transitions = m.transitions;
                    next_sequence = refl;
                    edges = refl;
                  }),
              check_decision-Admits g node_id decision artifacts valid,
              λ id. lookup-insert_all artifacts id g.artifacts,
              refl,
            ))
    ]
