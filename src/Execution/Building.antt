-- ===== src/Execution/Building.antt =====
-- The case rules of the methods that build a graph.
use zhongshu.Prelude.{
  String, true, false, [], ◌∷◌, ◌++◌, some, ◌&&◌, ◌||◌, if◌then◌else◌, ◌==◌, ◌≡◌, arith, any,
  is_blank, Bool-cases, inl, inr,
}
use zhongshu.OrderedMap.{lookup, insert, contains_key, values}
use zhongshu.OrderedMap.Laws.{lookup-insert}
use zhongshu.Execution.Graph.{add_node, add_edge, is_apply, has_started, has_path}
use zhongshu.Execution.Moves.{state_of}
use zhongshu.Execution.Types.{ExecutionGraph, ExecutionNode, ExecutionEdge}

abbrev pub with_node : ExecutionNode → ExecutionGraph → ExecutionGraph
with_node node g = record g { nodes = insert node.id node g.nodes }

abbrev pub with_edge : ExecutionEdge → ExecutionGraph → ExecutionGraph
with_edge edge g = record g { edges = g.edges ++ edge ∷ [] }

pub state_of-with_node :
    (node : ExecutionNode) (g : ExecutionGraph) (j : String)
    → state_of (with_node node g) j ≡ (if node.id == j then some node.state else state_of g j)
unfolding state_of
state_of-with_node node g j = ground (arith, lookup-insert node.id j node g.nodes)

-- What `add_node` has checked when it adds the node.
pub record MayAddNode (node : ExecutionNode) (g : ExecutionGraph) : Type 0 where
  pub is_named : is_blank node.id ≡ false
  pub is_new : contains_key node.id g.nodes ≡ false
  pub one_apply : (is_apply node && any is_apply (values g.nodes)) ≡ false

-- What `add_edge` has checked when it adds the edge.
pub record MayAddEdge (edge : ExecutionEdge) (g : ExecutionGraph) : Type 0 where
  pub has_from : contains_key edge.from g.nodes ≡ true
  pub has_to : contains_key edge.to g.nodes ≡ true
  pub not_started : has_started (lookup edge.to g.nodes) ≡ false
  pub is_new : any (λ e. e.from == edge.from && e.to == edge.to) g.edges ≡ false
  pub no_cycle : (edge.from == edge.to || has_path g edge.to edge.from) ≡ false

module _ {ℓ} (P : ExecutionGraph → Type ℓ) (g : ExecutionGraph) (same : P g) where
  pub add_node_cases :
      (node : ExecutionNode) → (MayAddNode node g → P (with_node node g)) → P (add_node node g).1
  unfolding add_node
  add_node_cases node add = elim (Bool-cases (is_blank node.id)) [
    | inl blank ↦ rw (blank, add_node) same
    | inr named ↦ elim (Bool-cases (contains_key node.id g.nodes)) [
      | inl old ↦ rw (named, old, add_node) same
      | inr new ↦ elim (Bool-cases (is_apply node && any is_apply (values g.nodes))) [
        | inl two ↦ rw (named, new, two, add_node) same
        | inr one ↦
            rw (named, new, one, add_node)
              (add (record { is_named = named; is_new = new; one_apply = one }))
      ]
    ]
  ]

  pub add_edge_cases :
      (edge : ExecutionEdge) → (MayAddEdge edge g → P (with_edge edge g)) → P (add_edge edge g).1
  unfolding add_edge
  add_edge_cases edge add = ground (arith, add)
