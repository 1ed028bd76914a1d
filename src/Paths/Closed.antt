-- ===== src/Paths/Closed.antt =====
-- `subgraph` of apps/frontend/src/services/graphInvestigation.ts.
use identity_access_graph.Prelude.{
  String, Bool, true, List, [], ◌∷◌, ◌≡◌, refl, inl, inr, All, ◌==◌, string_eq, ◌&&◌, ◌||◌,
  includes, any, filter, sym, subst, Bool-cases,
}
use identity_access_graph.Linux.Graph.{GraphData, GraphLink, GraphNode, end_id}
use identity_access_graph.Paths.Blast.{subgraph}

abbrev pub has_node : List GraphNode → String → Bool
has_node nodes i = any (λ (node : GraphNode). node.id == i) nodes

pub has_node-kept :
    (ids : List String) (i : String) (nodes : List GraphNode)
    → includes ids i ≡ true
    → has_node nodes i ≡ true
    → has_node (filter (λ (node : GraphNode). includes ids node.id) nodes) i ≡ true
has_node-kept ids i [] h e = e
has_node-kept ids i (node ∷ nodes) h e = elim (Bool-cases (node.id == i)) [
  | inl d ↦
      let p : includes ids node.id ≡ true =
        subst (λ j. includes ids j ≡ true) (sym ((string_eq.test_iff node.id i).0 d)) h in
      rw p (rw d refl)
  | inr d ↦
      let e' : has_node nodes i ≡ true = subst (λ b. (b || has_node nodes i) ≡ true) d e in
      elim (Bool-cases (includes ids node.id)) [
        | inl p ↦ rw p (rw d (has_node-kept ids i nodes h e'))
        | inr p ↦ rw p (has_node-kept ids i nodes h e')
      ]
]

-- Both ends of a link are nodes.
abbrev pub HasEnds : List GraphNode → GraphLink → Type 0
HasEnds nodes l =
    (has_node nodes (end_id l.source) ≡ true) × (has_node nodes (end_id l.target) ≡ true)

abbrev pub IsClosed : GraphData → Type 0
IsClosed g = All (HasEnds g.nodes) g.links

module _ (ids : List String) (nodes : List GraphNode) where
  abbrev kept : List GraphNode
  kept = filter (λ (node : GraphNode). includes ids node.id) nodes

  links-closed :
      (ls : List GraphLink)
      → All (HasEnds nodes) ls
      → All (HasEnds kept) (
          filter
            (λ (l : GraphLink). includes ids (end_id l.source) && includes ids (end_id l.target))
            ls)
  links-closed [] h = tt
  links-closed (l ∷ ls) h = elim (Bool-cases (includes ids (end_id l.source))) [
    | inl s ↦ elim (Bool-cases (includes ids (end_id l.target))) [
      | inl t ↦
          rw (s, t)
            (
              (
                has_node-kept ids (end_id l.source) nodes s h.0.0,
                has_node-kept ids (end_id l.target) nodes t h.0.1,
              ),
              links-closed ls h.1,
            )
      | inr t ↦ rw (s, t) (links-closed ls h.1)
    ]
    | inr s ↦ rw s (links-closed ls h.1)
  ]

-- Where both ends of every link are nodes of the graph, so they are in each of its subgraphs.
pub subgraph-IsClosed : (g : GraphData) (ids : List String) → IsClosed g → IsClosed (subgraph g ids)
unfolding subgraph
subgraph-IsClosed g ids h = links-closed ids g.nodes g.links h
