-- ===== src/Filters/Shown.antt =====
-- What the filters of apps/frontend/src/hooks/useGraphFilters.ts leave of a graph.
use identity_access_graph.Prelude.{
  String, Bool, true, List, [], ◌∷◌, ◌≡◌, refl, inl, inr, All, ◌==◌, ==_refl, string_eq, includes,
  filter, arith, Bool-cases,
}
use identity_access_graph.Correlate.Keys.{trim_text}
use identity_access_graph.Linux.Graph.{GraphData, GraphLink, GraphNode, end_id}
use identity_access_graph.Paths.Closed.{HasEnds, has_node-kept, IsClosed, subgraph-IsClosed}
use identity_access_graph.Paths.Blast.{subgraph}
use identity_access_graph.Filters.Apply.{
  GraphFiltersState, keep_nodes, keep_valued, keep_access, keep_relationships, keep_searched,
  filter_graph, link_ends, links_typed, ids_of, node_matches, status_of,
}

All-filtered :
    (Q : GraphLink → Type 0) (p : GraphLink → Bool) (ls : List GraphLink)
    → All Q ls
    → All Q (filter p ls)
All-filtered Q p [] h = tt
All-filtered Q p (l ∷ ls) h = elim (Bool-cases (p l)) [
  | inl e ↦ rw e (h.0, All-filtered Q p ls h.1)
  | inr e ↦ rw e (All-filtered Q p ls h.1)
]

-- The nodes at the ends of links are kept.
ends-kept :
    (nodes : List GraphNode) (ids : List String) (ls : List GraphLink)
    → ((i : String) → includes (link_ends ls) i ≡ true → includes ids i ≡ true)
    → All (HasEnds nodes) ls
    → All (HasEnds (filter (λ (n : GraphNode). includes ids n.id) nodes)) ls
ends-kept nodes ids [] h a = tt
ends-kept nodes ids (l ∷ ls) h a =
    let s : includes ids (end_id l.source) ≡ true =
      h (end_id l.source) (rw (==_refl (end_id l.source)) refl) in
    let t : includes ids (end_id l.target) ≡ true =
      h (end_id l.target) (rw (==_refl (end_id l.target)) (ground arith)) in
    (
      (
        has_node-kept ids (end_id l.source) nodes s a.0.0,
        has_node-kept ids (end_id l.target) nodes t a.0.1,
      ),
      ends-kept nodes ids ls (λ i e. h i (ground (arith, e))) a.1,
    )

keep_nodes-IsClosed :
    (p : GraphNode → Bool) (g : GraphData) → IsClosed g → IsClosed (keep_nodes p g)
unfolding keep_nodes subgraph
keep_nodes-IsClosed p g h = subgraph-IsClosed g (ids_of (filter p g.nodes)) h

keep_valued-IsClosed :
    (xs : List String) (value : GraphNode → String) (g : GraphData)
    → IsClosed g
    → IsClosed (keep_valued xs value g)
keep_valued-IsClosed [] value g h = h
keep_valued-IsClosed (x ∷ xs) value g h = keep_nodes-IsClosed (λ n. includes (x ∷ xs) (value n)) g h

keep_access-IsClosed : (xs : List String) (g : GraphData) → IsClosed g → IsClosed (keep_access xs g)
unfolding keep_access
keep_access-IsClosed [] g h = h
keep_access-IsClosed (x ∷ xs) g h =
    ends-kept g.nodes (link_ends (links_typed (x ∷ xs) g.links)) (links_typed (x ∷ xs) g.links)
      (λ i e. e) (All-filtered (HasEnds g.nodes) _ g.links h)

keep_relationships-IsClosed :
    (xs : List String) (g : GraphData) → IsClosed g → IsClosed (keep_relationships xs g)
unfolding keep_relationships
keep_relationships-IsClosed [] g h = h
keep_relationships-IsClosed (x ∷ xs) g h = All-filtered (HasEnds g.nodes) _ g.links h

-- The link has one of the types, if there are any.
abbrev pub IsOf : List String → GraphLink → Type 0
IsOf [] l = Unit
IsOf (x ∷ xs) l = includes (x ∷ xs) l.relationship_type ≡ true

links_typed-IsOf :
    (types : List String) (ls : List GraphLink)
    → All (λ (l : GraphLink). includes types l.relationship_type ≡ true) (links_typed types ls)
links_typed-IsOf types [] = tt
links_typed-IsOf types (l ∷ ls) = elim (Bool-cases (includes types l.relationship_type)) [
  | inl e ↦ rw e (e, links_typed-IsOf types ls)
  | inr e ↦ rw e (links_typed-IsOf types ls)
]

any-IsOf : (ls : List GraphLink) → All (IsOf []) ls
any-IsOf [] = tt
any-IsOf (l ∷ ls) = (tt, any-IsOf ls)

keep_access-IsOf : (xs : List String) (g : GraphData) → All (IsOf xs) (keep_access xs g).links
unfolding keep_access
keep_access-IsOf [] g = any-IsOf g.links
keep_access-IsOf (x ∷ xs) g = links_typed-IsOf (x ∷ xs) g.links

keep_relationships-IsOf :
    (xs : List String) (g : GraphData) → All (IsOf xs) (keep_relationships xs g).links
unfolding keep_relationships
keep_relationships-IsOf [] g = any-IsOf g.links
keep_relationships-IsOf (x ∷ xs) g = links_typed-IsOf (x ∷ xs) g.links

keep_relationships-All :
    (Q : GraphLink → Type 0) (xs : List String) (g : GraphData)
    → All Q g.links
    → All Q (keep_relationships xs g).links
unfolding keep_relationships
keep_relationships-All Q [] g h = h
keep_relationships-All Q (x ∷ xs) g h = All-filtered Q _ g.links h

-- Both ends of every link are nodes, and its type passes both filters on types.
abbrev pub IsShown : GraphFiltersState → GraphData → Type 0
IsShown f g =
    IsClosed g × All (IsOf f.access_types) g.links × All (IsOf f.relationship_types) g.links

module _ (lower : String → String) where
  keep_searched-IsClosed :
      (query : String) (g : GraphData) → IsClosed g → IsClosed (keep_searched lower query g)
  keep_searched-IsClosed query g h = elim (Bool-cases (trim_text query == "")) [
    | inl e ↦ rw e h
    | inr e ↦ rw e (keep_nodes-IsClosed (node_matches lower (lower query)) g h)
  ]

  keep_searched-All :
      (Q : GraphLink → Type 0) (query : String) (g : GraphData)
      → All Q g.links
      → All Q (keep_searched lower query g).links
  unfolding keep_nodes
  keep_searched-All Q query g h = elim (Bool-cases (trim_text query == "")) [
    | inl e ↦ rw e h
    | inr e ↦ rw e (All-filtered Q _ g.links h)
  ]

  filter_graph-IsClosed :
      (f : GraphFiltersState) (g : GraphData) → IsClosed g → IsClosed (filter_graph lower f g)
  filter_graph-IsClosed f g h = keep_searched-IsClosed f.search_query _ (
      keep_relationships-IsClosed f.relationship_types _ (
        keep_access-IsClosed f.access_types _ (
          keep_valued-IsClosed f.statuses status_of _ (
            keep_valued-IsClosed f.risk_levels (λ n. n.risk_level) _
              (keep_valued-IsClosed f.node_types (λ n. n.node_type) _
                (keep_valued-IsClosed f.systems (λ n. n.source_system) g h))))))

  -- Where both ends of every link of the data are nodes, so they are in what is shown, whatever the
  -- filters, so no filter leaves a link without a node at its end; and each link that is shown is of
  -- one of the access types and of one of the relationship types, of those of the two that are chosen.
  pub filter_graph-IsShown :
      (f : GraphFiltersState) (g : GraphData) → IsClosed g → IsShown f (filter_graph lower f g)
  filter_graph-IsShown f g h = (
    filter_graph-IsClosed f g h,
    keep_searched-All (IsOf f.access_types) f.search_query _ (
        keep_relationships-All (IsOf f.access_types) f.relationship_types _
          (keep_access-IsOf f.access_types _)),
    keep_searched-All (IsOf f.relationship_types) f.search_query _
        (keep_relationships-IsOf f.relationship_types _),
  )
