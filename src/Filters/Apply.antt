-- ===== src/Filters/Apply.antt =====
-- The filters of apps/frontend/src/hooks/useGraphFilters.ts, and the graph that is left of `data`.
--
-- The state of the hook is `GraphFiltersState`; a `Set` is a list. A status is a text.
use identity_access_graph.Prelude.{
  String, Bool, false, List, [], ◌∷◌, Option, none, some, ◌==◌, string_eq, if◌then◌else◌, ◌||◌,
  ◌&&◌, includes, push_missing, filter, map,
}
use identity_access_graph.Correlate.Keys.{trim_text}
use identity_access_graph.Linux.Graph.{GraphData, GraphLink, GraphNode, end_id, has_text}

pub record GraphFiltersState : Type 0 where
  pub systems : List String
  pub node_types : List String
  pub relationship_types : List String
  pub risk_levels : List String
  pub statuses : List String
  pub access_types : List String
  pub search_query : String

abbrev pub connects_only : GraphLink → List String → Bool
connects_only l node_ids =
    includes node_ids (end_id l.source) && includes node_ids (end_id l.target)

abbrev pub ids_of : List GraphNode → List String
ids_of nodes = map (λ (n : GraphNode). n.id) nodes

-- `nodeIds` of the nodes that pass, and what has one of these ids.
unfoldable pub keep_nodes : (GraphNode → Bool) → GraphData → GraphData
keep_nodes p g =
    let node_ids = ids_of (filter p g.nodes) in
    record {
      nodes = filter (λ (n : GraphNode). includes node_ids n.id) g.nodes;
      links = filter (λ (l : GraphLink). connects_only l node_ids) g.links;
    }

-- A filter by values is off if it has none.
abbrev pub keep_valued : List String → (GraphNode → String) → GraphData → GraphData
keep_valued [] value g = g
keep_valued (x ∷ xs) value g = keep_nodes (λ n. includes (x ∷ xs) (value n)) g

abbrev pub status_of : GraphNode → String
status_of n = elim (n.properties.status) [ none ↦ "UNKNOWN" | some s ↦ s ]

-- The ends of the links, each link's source and target.
abbrev pub link_ends : List GraphLink → List String
link_ends [] = []
link_ends (l ∷ ls) = end_id l.source ∷ end_id l.target ∷ link_ends ls

abbrev pub links_typed : List String → List GraphLink → List GraphLink
links_typed types ls = filter (λ (l : GraphLink). includes types l.relationship_type) ls

unfoldable pub keep_access : List String → GraphData → GraphData
keep_access [] g = g
keep_access (x ∷ xs) g =
    let ls = links_typed (x ∷ xs) g.links in
    record { nodes = filter (λ (n : GraphNode). includes (link_ends ls) n.id) g.nodes; links = ls }

unfoldable pub keep_relationships : List String → GraphData → GraphData
keep_relationships [] g = g
keep_relationships (x ∷ xs) g = record g { links = links_typed (x ∷ xs) g.links }

module _ (lower : String → String) where
  -- `n.sourceId && …`: an empty one does not match.
  abbrev source_id_matches : String → Option String → Bool
  source_id_matches q none = false
  source_id_matches q (some i) = if i == "" then false else has_text (lower i) q

  abbrev pub node_matches : String → GraphNode → Bool
  node_matches q n =
      has_text (lower n.display_name) q
      || has_text (lower n.id) q
      || source_id_matches q n.source_id

  abbrev pub keep_searched : String → GraphData → GraphData
  keep_searched query g =
      if trim_text query == "" then g else keep_nodes (node_matches (lower query)) g

  abbrev pub filter_graph : GraphFiltersState → GraphData → GraphData
  filter_graph f g =
      let g1 = keep_valued f.systems (λ n. n.source_system) g in
      let g2 = keep_valued f.node_types (λ n. n.node_type) g1 in
      let g3 = keep_valued f.risk_levels (λ n. n.risk_level) g2 in
      let g4 = keep_valued f.statuses status_of g3 in
      let g5 = keep_access f.access_types g4 in
      let g6 = keep_relationships f.relationship_types g5 in keep_searched f.search_query g6

  abbrev pub filtered_data : Option GraphData → GraphFiltersState → GraphData
  filtered_data none f = record { nodes = []; links = [] }
  filtered_data (some g) f = filter_graph f g

-- `resetFilters`, and the state that the hook starts in.
abbrev pub no_filters : GraphFiltersState
no_filters = record {
  systems = [];
  node_types = [];
  relationship_types = [];
  risk_levels = [];
  statuses = [];
  access_types = [];
  search_query = "";
}

pub data Preset : Type 0 where
  privileged high_risk identities infrastructure : Preset

-- The state before is overwritten in every field.
abbrev pub apply_preset : Preset → GraphFiltersState → GraphFiltersState
apply_preset privileged f = record no_filters {
  access_types = "HAS_ROLE" ∷ "GRANTS" ∷ "HAS_PERMISSION" ∷ "HAS_ACCESS_TO" ∷ [];
}
apply_preset high_risk f = record no_filters { risk_levels = "HIGH" ∷ "CRITICAL" ∷ [] }
apply_preset identities f = record no_filters {
  node_types = "USER" ∷ "GROUP" ∷ "ROLE" ∷ "SERVICE_ACCOUNT" ∷ "LINUX_USER" ∷ "LINUX_GROUP" ∷ [];
}
apply_preset infrastructure f = record no_filters {
  node_types = "HOST" ∷ "COMPUTER" ∷ "APPLICATION" ∷ "DATABASE" ∷ "BUSINESS_SERVICE" ∷ [];
}

-- `setFilters` of one field.
data FilterChange : Type 0 where
  systems_set node_types_set relationship_types_set risk_levels_set : List String → FilterChange
  statuses_set access_types_set : List String → FilterChange
  search_query_set : String → FilterChange

abbrev changed : FilterChange → GraphFiltersState → GraphFiltersState
changed (systems_set xs) f = record f { systems = xs }
changed (node_types_set xs) f = record f { node_types = xs }
changed (relationship_types_set xs) f = record f { relationship_types = xs }
changed (risk_levels_set xs) f = record f { risk_levels = xs }
changed (statuses_set xs) f = record f { statuses = xs }
changed (access_types_set xs) f = record f { access_types = xs }
changed (search_query_set q) f = record f { search_query = q }

abbrev access_choices : List String
access_choices =
    "HAS_ACCESS_TO" ∷ "HAS_ACCESS" ∷ "HAS_ROLE" ∷ "GRANTS" ∷ "HAS_PERMISSION" ∷ "MEMBER_OF" ∷ []

-- What can be chosen: each value of the data once, in their order.
module _ (g : GraphData) where
  abbrev all_node_types : List String
  all_node_types = push_missing [] (map (λ (n : GraphNode). n.node_type) g.nodes)

  abbrev all_relationship_types : List String
  all_relationship_types = push_missing [] (map (λ (l : GraphLink). l.relationship_type) g.links)

  abbrev all_source_systems : List String
  all_source_systems = push_missing [] (map (λ (n : GraphNode). n.source_system) g.nodes)

  abbrev all_risk_levels : List String
  all_risk_levels = push_missing [] (map (λ (n : GraphNode). n.risk_level) g.nodes)

  abbrev all_node_statuses : List String
  all_node_statuses = push_missing [] (map status_of g.nodes)

  abbrev all_access_types : List String
  all_access_types =
      push_missing []
        (filter (includes access_choices) (map (λ (l : GraphLink). l.relationship_type) g.links))
