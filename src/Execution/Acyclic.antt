-- ===== src/Execution/Acyclic.antt =====
-- The graph stays without a cycle.
use zhongshu.Prelude.{
  String, List, [], ◌∷◌, ◌++◌, ◌≡◌, ◌⊎◌, refl, sym, ap, ◌∙◌, subst, arith, In, here, there, inl,
  inr, ok,
}
use zhongshu.Execution.Graph.{add_edge, has_path, new}
use zhongshu.Execution.Lifecycle.{moved}
use zhongshu.Execution.Paths.{Leads, stay, along, path_exists_iff}
use zhongshu.Execution.Building.{add_node_cases, add_edge_cases}
use zhongshu.Execution.Kept.{IsPreserved}
use zhongshu.Execution.Readiness.{HasIds}
use zhongshu.Execution.Steps.{Steps, here as start, next, Step_keeps}
use zhongshu.Execution.Safety.{Steps-HasIds, new-eq}
use zhongshu.Execution.Types.{ExecutionGraph, ExecutionEdge}

-- No edge leads back to its own source.
abbrev pub HasNoCycle : List ExecutionEdge → Type 0
HasNoCycle edges = (e : ExecutionEdge) → In e edges → ¬ Leads edges e.to e.from

abbrev pub IsAcyclic : ExecutionGraph → Type 0
IsAcyclic g = HasNoCycle g.edges

In-snoc {ℓ} : {A : Type ℓ} {x y : A} (xs : List A) → In x (xs ++ y ∷ []) → In x xs ⊎ (x ≡ y)
In-snoc [] (here e) = inr e
In-snoc [] (there i) = elim i [ ]
In-snoc (z ∷ xs) (here e) = inl (here e)
In-snoc (z ∷ xs) (there i) = elim (In-snoc xs i) [ inl j ↦ inl (there j) | inr e ↦ inr e ]

Leads-trans :
    {edges : List ExecutionEdge} {a b c : String}
    → Leads edges a b
    → Leads edges b c
    → Leads edges a c
Leads-trans l stay = l
Leads-trans l (along m e i p q) = along (Leads-trans l m) e i p q

module _ (edges : List ExecutionEdge) (edge : ExecutionEdge) where
  -- A way with the new edge uses it not at all, or goes to its source and on from its target.
  split_at_edge :
      {a b : String}
      → Leads (edges ++ edge ∷ []) a b
      → Leads edges a b ⊎ (Leads edges a edge.from × Leads edges edge.to b)
  split_at_edge stay = inl stay
  split_at_edge (along l e i p q) = elim (In-snoc edges i) [
    | inl old ↦ elim (split_at_edge l) [
      | inl m ↦ inl (along m e old p q)
      | inr (m, n) ↦ inr (m, along n e old p q)
    ]
    | inr new ↦ elim (split_at_edge l) [
      | inl m ↦ inr (
        subst (Leads edges _) (sym p ∙ ap (λ (x : ExecutionEdge). x.from) new) m,
        subst (Leads edges edge.to) (sym (ap (λ (x : ExecutionEdge). x.to) new) ∙ q) stay,
      )
      | inr (m, n) ↦
          inr (m, subst (Leads edges edge.to) (sym (ap (λ (x : ExecutionEdge). x.to) new) ∙ q) stay)
    ]
  ]

  HasNoCycle-snoc :
      HasNoCycle edges → ¬ Leads edges edge.to edge.from → HasNoCycle (edges ++ edge ∷ [])
  HasNoCycle-snoc none_yet apart e i l = elim (In-snoc edges i) [
    | inl old ↦ elim (split_at_edge l) [
      | inl m ↦ none_yet e old m
      | inr (m, n) ↦ apart (Leads-trans (along n e old refl refl) m)
    ]
    | inr new ↦ elim (split_at_edge l) [
      | inl m ↦ apart (subst (λ (x : ExecutionEdge). Leads edges x.to x.from) new m)
      | inr (m, n) ↦ apart (subst (Leads edges edge.to) (ap (λ (x : ExecutionEdge). x.from) new) n)
    ]
  ]

add_edge-IsAcyclic :
    (edge : ExecutionEdge) (g : ExecutionGraph) → IsAcyclic g → IsAcyclic (add_edge edge g).1
unfolding has_path
add_edge-IsAcyclic edge g h = add_edge_cases IsAcyclic g h edge λ may.
    HasNoCycle-snoc g.edges edge h
      λ l. ground (arith, may.no_cycle, (path_exists_iff g.edges edge.to edge.from).1 l)

IsAcyclic-IsPreserved : IsPreserved IsAcyclic
unfolding moved
IsAcyclic-IsPreserved = record {
  moves = record { move = λ g node_id node to reason found valid met h. h };
  frame = λ g a r i h. h;
}

-- After any calls on a new graph, nodes being added as pending, no edge leads back to its own
-- source.
pub Steps-IsAcyclic :
    (task_id : String) {g h : ExecutionGraph} → new task_id ≡ ok g → Steps g h → IsAcyclic h
Steps-IsAcyclic task_id e start = subst IsAcyclic (new-eq task_id _ e) (λ f i. elim i [ ])
Steps-IsAcyclic task_id {g} e (next r s) =
    Step_keeps IsAcyclic IsAcyclic-IsPreserved
      (λ node k _ _ p. add_node_cases IsAcyclic k p node (λ _. p))
      (λ edge k _ p. add_edge-IsAcyclic edge k p) s
      (Steps-HasIds r (subst HasIds (new-eq task_id g e) (record { sorted = tt; keyed = tt })))
      (Steps-IsAcyclic task_id e r)
