-- ===== src/Paths/Tests.antt =====
-- Small graphs for `shortestPath` of apps/frontend/src/services/graphInvestigation.ts, runs on them,
-- and the theorem at one.
use identity_access_graph.Prelude.{
  String, true, List, [], ◌∷◌, none, some, ◌≡◌, refl, decimal, string_eq,
}
use identity_access_graph.Linux.Graph.{GraphData, GraphLink, by_id, by_node}
use identity_access_graph.Paths.Search.{
  directed, undirected, PathCache, search, scan, new_path, shortest_path, path_key, graph_key,
}
use identity_access_graph.Paths.Shortest.{IsShortest, new_path-IsShortest}

abbrev link : String → String → String → GraphLink
link id from to = record {
  id = id;
  source = by_id from;
  target = by_node to;
  relationship_type = "MEMBER_OF";
  source_system = "LINUX";
}

abbrev graph_of : List GraphLink → GraphData
graph_of ls = record { nodes = []; links = ls }

-- From `a` to `d` there are two steps over `c`, and three over `b`.
abbrev sample : GraphData
sample = graph_of (
    link "1" "a" "b"
    ∷ link "2" "b" "c"
    ∷ link "3" "a" "c"
    ∷ link "4" "c" "d"
    ∷ link "5" "c" "a"
    ∷ [])

path_found :
    new_path sample "a" "d" directed 10 (λ _. true)
    ≡ some (record { node_ids = "a" ∷ "c" ∷ "d" ∷ []; link_ids = "3" ∷ "4" ∷ []; depth = 2 })
unfolding new_path search scan
path_found = refl

no_path_found : new_path sample "d" "a" directed 10 (λ _. true) ≡ none
unfolding new_path search scan
no_path_found = refl

other_way_found :
    new_path sample "d" "b" undirected 10 (λ _. true)
    ≡ some (record { node_ids = "d" ∷ "c" ∷ "b" ∷ []; link_ids = "4" ∷ "2" ∷ []; depth = 2 })
unfolding new_path search scan
other_way_found = refl

-- Two graphs whose links have the same names share a key: the path of the first is given for the
-- second, which has none.
abbrev cache_of_sample : PathCache
cache_of_sample = (shortest_path (graph_of (link "1" "a" "b" ∷ [])) "a" "b" directed 10 none []).1

stale_path_found :
    (shortest_path (graph_of (link "1" "b" "a" ∷ [])) "a" "b" directed 10 none cache_of_sample).0
    ≡ some (record { node_ids = "a" ∷ "b" ∷ []; link_ids = "1" ∷ []; depth = 1 })
unfolding shortest_path path_key graph_key new_path search scan decimal
stale_path_found = refl

new_path-IsShortest_example :
    IsShortest sample "a" "d" directed 3
      (λ _. true)
      (new_path sample "a" "d" directed 3 (λ _. true))
new_path-IsShortest_example = new_path-IsShortest sample "a" "d" directed 3 (λ _. true)
