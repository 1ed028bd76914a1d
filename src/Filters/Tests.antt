-- ===== src/Filters/Tests.antt =====
-- Runs of the filters of apps/frontend/src/hooks/useGraphFilters.ts on a small graph, and the theorem
-- at one.
use identity_access_graph.Prelude.{String, List, [], ◌∷◌, some, ◌≡◌, refl, map}
use identity_access_graph.Csv.Line.{is_space}
use identity_access_graph.Correlate.Keys.{trim_text}
use identity_access_graph.Linux.Graph.{GraphData, GraphLink}
use identity_access_graph.Paths.Sample.{small}
use identity_access_graph.Filters.Apply.{
  GraphFiltersState, keep_nodes, keep_access, keep_relationships, filter_graph, filtered_data,
  no_filters, apply_preset, high_risk, identities, ids_of,
}
use identity_access_graph.Filters.Shown.{IsShown, filter_graph-IsShown}

abbrev links_of : GraphData → List String
links_of g = map (λ (l : GraphLink). l.id) g.links

abbrev plain : String → String
plain s = s

abbrev shown : GraphFiltersState → List String × List String
shown f = let g = filtered_data plain (some small) f in (ids_of g.nodes, links_of g)

identities_shown : shown (apply_preset identities no_filters) ≡ ("u" ∷ "g" ∷ [], "1" ∷ [])
unfolding keep_nodes keep_access keep_relationships trim_text
identities_shown = refl

high_risk_shown : shown (apply_preset high_risk no_filters) ≡ ("h" ∷ [], [])
unfolding keep_nodes keep_access keep_relationships trim_text
high_risk_shown = refl

-- The relationship types are applied behind the access types, and leave the nodes of links that go.
access_shown :
    shown (record no_filters {
      access_types = "MEMBER_OF" ∷ [];
      relationship_types = "HAS_ACCESS" ∷ [];
    })
    ≡ ("u" ∷ "g" ∷ [], [])
unfolding keep_nodes keep_access keep_relationships trim_text
access_shown = refl

search_shown : shown (record no_filters { search_query = "u" }) ≡ ("u" ∷ [], [])
unfolding keep_nodes keep_access keep_relationships trim_text is_space
search_shown = refl

filter_graph-IsShown_example :
    IsShown
      (apply_preset identities no_filters)
      (filter_graph plain (apply_preset identities no_filters) small)
filter_graph-IsShown_example =
    filter_graph-IsShown plain (apply_preset identities no_filters) small
      ((refl, refl), ((refl, refl), ((refl, refl), ((refl, refl), tt))))
